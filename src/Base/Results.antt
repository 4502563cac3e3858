-- ===== src/Base/Results.antt =====
-- What a run of C code comes to. `fault` is undefined behaviour (a read outside an object, or of a
-- cell that nothing has written, or through NULL); `out_of_fuel` is a loop that outran its fuel.
use Prim.Native.Nat.{ℕ, zero, suc}
use mathlib.Core.Path.{◌≡◌, refl}
use mathlib.Core.Logic.{◌≢◌}
use mathlib.Core.Bool.{Bool, true, false}
use native.Mathlib.Omega.{arith}
use ken_code_de_bridge.Base.Tests.{◌==◌, if◌then◌else◌}
use mathlib.Core.Option.{Option, none, some}

pub data Outcome {ℓ} (A : Type ℓ) : Type ℓ where
  ok : A → Outcome A
  fault : Outcome A
  out_of_fuel : Outcome A

infixl 5 ◌>>=◌
abbrev pub ◌>>=◌ {ℓ κ} : {A : Type ℓ} {B : Type κ} → Outcome A → (A → Outcome B) → Outcome B
ok a >>= f = f a
fault >>= f = fault
out_of_fuel >>= f = out_of_fuel

-- A pointer, or an array cell, that must be there.
abbrev pub deref {ℓ} : {A : Type ℓ} → Option A → Outcome A
deref none = fault
deref (some a) = ok a

pub >>=-eq-ok {ℓ κ} :
    {A : Type ℓ} {B : Type κ} (first : Outcome A) (rest : A → Outcome B) {result : B}
    → (first >>= rest) ≡ ok result
    → (mid : A) × (first ≡ ok mid) × (rest mid ≡ ok result)
>>=-eq-ok (ok mid) rest ran = (mid, refl, ran)
>>=-eq-ok fault rest ran = cc
>>=-eq-ok out_of_fuel rest ran = cc

pub deref-eq-ok {ℓ} : {A : Type ℓ} (o : Option A) {a : A} → deref o ≡ ok a → o ≡ some a
deref-eq-ok none h = cc
deref-eq-ok (some a) h = cc

-- The run ends, and if its behaviour is defined, its result is as said.
abbrev pub Ensures {ℓ} : {A : Type ℓ} → (A → Type 0) → Outcome A → Type 0
Ensures P (ok a) = P a
Ensures P fault = Unit
Ensures P out_of_fuel = ⊥

pub Ensures-bind {ℓ κ} :
    {A : Type ℓ} {B : Type κ} (P : A → Type 0) (Q : B → Type 0) (m : Outcome A) (f : A → Outcome B)
    → Ensures P m
    → ((a : A) → P a → Ensures Q (f a))
    → Ensures Q (m >>= f)
Ensures-bind P Q (ok a) f h next = next a h
Ensures-bind P Q fault f h next = tt
Ensures-bind P Q out_of_fuel f h next = absurd h

-- A step that gives a position, of which 0 is taken for a failure.
pub Ensures-step {ℓ κ} :
    {A : Type ℓ} {B : Type κ} (P : ℕ × A → Type 0) (Q : B → Type 0) (m : Outcome (ℕ × A))
    (failed : Outcome B) (f : ℕ × A → Outcome B)
    → Ensures P m
    → Ensures Q failed
    → ((r : ℕ × A) → P r → r.0 ≢ 0 → Ensures Q (f r))
    → Ensures Q (m >>= λ r. if r.0 == 0 then failed else f r)
Ensures-step P Q (ok (zero, a)) failed f h none_there next = none_there
Ensures-step P Q (ok (suc p, a)) failed f h none_there next =
    let test : (suc p == 0) ≡ false = ground arith in rw test (next (suc p, a) h (λ e. cc e))
Ensures-step P Q fault failed f h none_there next = tt
Ensures-step P Q out_of_fuel failed f h none_there next = absurd h

pub Ensures-if {ℓ} :
    {A : Type ℓ} (P : A → Type 0) (b : Bool) (x y : Outcome A)
    → Ensures P x
    → Ensures P y
    → Ensures P (if b then x else y)
Ensures-if P true x y hx hy = hx
Ensures-if P false x y hx hy = hy
