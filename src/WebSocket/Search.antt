-- ===== src/WebSocket/Search.antt =====
-- `strstr`, as `http_handshake` uses it: what it finds is there, and is the first of its kind.
use mathlib.Core.Path.{subst}
use ken_code_de_bridge.Base.{
  Bool, Bool-cases, Bytes, Option, [], ap, arith, drop, false, inl, inr, is_prefix, length, none,
  refl, some, true, ℕ, ◌&&◌, ◌++◌, ◌==◌, ◌∷◌, ◌≡◌,
}
use ken_code_de_bridge.WebSocket.{in_front, strstr}

is_prefix-drop : (p text : Bytes) → is_prefix p text ≡ true → text ≡ p ++ drop (length p) text
unfolding is_prefix
is_prefix-drop [] text h = refl
is_prefix-drop (c ∷ p) [] h = cc
is_prefix-drop (c ∷ p) (d ∷ text) h =
    let (same, rest) = both (c == d) (is_prefix p text) h in
    let e : c ≡ d = ground (arith, same) in rw e (ap (λ x. d ∷ x) (is_prefix-drop p text rest))
  where
    both : (b b' : Bool) → (b && b') ≡ true → (b ≡ true) × (b' ≡ true)
    both true b' h = (refl, h)
    both false b' h = cc

-- What `strstr` finds is there.
pub strstr-split :
    (needle text front behind : Bytes)
    → strstr needle text ≡ some (front, behind)
    → text ≡ front ++ (needle ++ behind)
unfolding strstr
strstr-split [] [] front behind h = unfold is_prefix in cc
strstr-split (n ∷ needle) [] front behind h = unfold is_prefix in cc
strstr-split needle (c ∷ text) front behind h = elim (Bool-cases (is_prefix needle (c ∷ text))) [
  | inl here ↦ at_once (rw here at h) (is_prefix-drop needle (c ∷ text) here)
  | inr later ↦ behind_it (strstr needle text) (strstr-split needle text) (rw later at h)
]
  where
    at_once :
        ◌≡◌ {A = Option (Bytes × Bytes)}
          (some ([], drop (length needle) (c ∷ text)))
          (some (front, behind))
        → (c ∷ text) ≡ needle ++ drop (length needle) (c ∷ text)
        → (c ∷ text) ≡ front ++ (needle ++ behind)
    at_once e split = cc

    behind_it :
        (r : Option (Bytes × Bytes))
        → ((f b : Bytes) → r ≡ some (f, b) → text ≡ f ++ (needle ++ b))
        → in_front c r ≡ some (front, behind)
        → (c ∷ text) ≡ front ++ (needle ++ behind)
    behind_it none split e = cc
    behind_it (some (f, b)) split e = let here = split f b refl in cc

-- No earlier occurrence: `needle` starts at no byte of `front`.
abbrev pub Earliest : Bytes → Bytes → Bytes → Type 0
Earliest needle [] rest = Unit
Earliest needle (c ∷ front) rest =
    (is_prefix needle (c ∷ (front ++ rest)) ≡ false) × Earliest needle front rest

same_front :
    (f b front behind : Bytes)
    → ◌≡◌ {A = Option (Bytes × Bytes)} (some (f, b)) (some (front, behind))
    → f ≡ front
same_front f b front behind e = cc e

same_behind :
    (f b front behind : Bytes)
    → ◌≡◌ {A = Option (Bytes × Bytes)} (some (f, b)) (some (front, behind))
    → b ≡ behind
same_behind f b front behind e = cc e

Earliest-cons :
    (needle text f b : Bytes) (c : ℕ) (front behind : Bytes)
    → is_prefix needle (c ∷ text) ≡ false
    → text ≡ f ++ (needle ++ b)
    → Earliest needle f (needle ++ b)
    → (c ∷ f) ≡ front
    → b ≡ behind
    → Earliest needle front (needle ++ behind)
Earliest-cons needle text f b c front behind later split earliest e e' =
    subst (λ z. Earliest needle z (needle ++ behind)) e
      (subst (λ z. Earliest needle (c ∷ f) (needle ++ z)) e'
        (subst (λ z. is_prefix needle (c ∷ z) ≡ false) split later, earliest))

pub strstr-Earliest :
    (needle text front behind : Bytes)
    → strstr needle text ≡ some (front, behind)
    → Earliest needle front (needle ++ behind)
unfolding strstr
strstr-Earliest [] [] front behind h = unfold is_prefix in at_start front behind h
  where
    at_start :
        (front behind : Bytes)
        → ◌≡◌ {A = Option (Bytes × Bytes)} (some ([], [])) (some (front, behind))
        → Earliest [] front ([] ++ behind)
    at_start [] behind h = tt
    at_start (c ∷ front) behind h = cc h
strstr-Earliest (n ∷ needle) [] front behind h = unfold is_prefix in cc
strstr-Earliest needle (c ∷ text) front behind h = elim (Bool-cases (is_prefix needle (c ∷ text))) [
  | inl here ↦ at_once front behind (rw here at h)
  | inr later ↦
      behind_it front later (strstr needle text) refl (strstr-Earliest needle text) (rw later at h)
]
  where
    at_once :
        (front behind : Bytes)
        → ◌≡◌ {A = Option (Bytes × Bytes)}
            (some ([], drop (length needle) (c ∷ text)))
            (some (front, behind))
        → Earliest needle front (needle ++ behind)
    at_once [] behind e = tt
    at_once (d ∷ front) behind e = cc e

    behind_it :
        (front : Bytes)
        → is_prefix needle (c ∷ text) ≡ false
        → (r : Option (Bytes × Bytes)) → strstr needle text ≡ r
        → ((f b : Bytes) → r ≡ some (f, b) → Earliest needle f (needle ++ b))
        → in_front c r ≡ some (front, behind)
        → Earliest needle front (needle ++ behind)
    behind_it front later none found ih e = cc e
    behind_it front later (some (f, b)) found ih e =
        Earliest-cons needle text f b c front behind later (strstr-split needle text f b found)
          (ih f b refl) (same_front (c ∷ f) b front behind e) (same_behind (c ∷ f) b front behind e)
