-- ===== src/Base/Text.antt =====
-- C strings: the bytes in front of the terminating NUL. `strlen` is `length`, and `strcmp(a, b) == 0`
-- is `equal a b`.
use Prim.Native.Nat.{ℕ, zero, suc, ◌+◌, ◌-◌, ◌*◌}
use Prim.Native.Char.{code}
use Prim.Native.String.{String}
use mathlib.Core.Path.{◌≡◌, refl}
use mathlib.Core.Logic.{◌↔◌}
use mathlib.Core.Bool.{Bool, true, false, ◌&&◌, ◌||◌}
use mathlib.Core.Option.{Option, none, some}
use mathlib.Core.List.{List, [], ◌∷◌, map}
use native.Mathlib.Omega.{arith}
use ken_code_de_bridge.Base.Lists.{take}
use ken_code_de_bridge.Base.Tests.{leb, ◌==◌, if◌then◌else◌}

abbrev pub Bytes : Type 0
Bytes = List ℕ

-- An `int`: `negsuc n` is -(n + 1).
pub data ℤ : Type 0 where
  pos : ℕ → ℤ
  negsuc : ℕ → ℤ

-- The bytes of a literal, which is ASCII.
abbrev pub codes : String → Bytes
codes String.[] = []
codes (String.◌∷◌ c s) = code c ∷ codes s

unfoldable pub equal : Bytes → Bytes → Bool
equal [] [] = true
equal [] (d ∷ t) = false
equal (c ∷ s) [] = false
equal (c ∷ s) (d ∷ t) = c == d && equal s t

pub equal_iff : (s t : Bytes) → (equal s t ≡ true) ↔ (s ≡ t)
unfolding equal
equal_iff [] [] = ground arith
equal_iff [] (d ∷ t) = ground arith
equal_iff (c ∷ s) [] = ground arith
equal_iff (c ∷ s) (d ∷ t) = let tails = equal_iff s t in ground arith

pub equal_refl : (s : Bytes) → equal s s ≡ true
equal_refl s = (equal_iff s s).1 refl

-- `strncmp(s, p, strlen(p)) == 0`
unfoldable pub is_prefix : Bytes → Bytes → Bool
is_prefix [] s = true
is_prefix (c ∷ p) [] = false
is_prefix (c ∷ p) (d ∷ s) = c == d && is_prefix p s

-- `toupper` and `tolower` of the C locale.
unfoldable pub to_upper : ℕ → ℕ
to_upper c = if leb b'a' c && leb c b'z' then c - 32 else c

unfoldable pub to_lower : ℕ → ℕ
to_lower c = if leb b'A' c && leb c b'Z' then c + 32 else c

-- `strchr`: the text in front of the first `c`, and behind it.
unfoldable pub split_at : ℕ → Bytes → Option (Bytes × Bytes)
split_at c [] = none
split_at c (x ∷ xs) =
    if x == c
    then some ([], xs)
    else elim (split_at c xs) [ none ↦ none | some (a, b) ↦ some (x ∷ a, b) ]

unfoldable pub all_upper : Bytes → Bytes
unfolding to_upper
all_upper = map to_upper

-- `atoi`: blanks, a sign, digits. (Past the range of `int` its result is undefined.)
atoi_digits : ℕ → Bytes → ℕ
atoi_digits acc [] = acc
atoi_digits acc (c ∷ s) =
    let rest = atoi_digits (acc * 10 + (c - b'0')) s in
    if leb b'0' c && leb c b'9' then rest else acc

negate : ℕ → ℤ
negate zero = pos 0
negate (suc n) = negsuc n

atoi_signed : Bytes → ℤ
atoi_signed [] = pos 0
atoi_signed (c ∷ s) =
    if c == b'-'
    then negate (atoi_digits 0 s)
    else if c == b'+'
    then pos (atoi_digits 0 s)
    else pos (atoi_digits 0 (c ∷ s))

unfoldable pub atoi : Bytes → ℤ
unfolding atoi_digits negate atoi_signed
atoi [] = pos 0
atoi (c ∷ s) =
    let rest = atoi s in if c == b' ' || (leb 9 c && leb c 13) then rest else atoi_signed (c ∷ s)

-- `snprintf` into `size` bytes: what it writes, without the NUL.
abbrev pub snprintf : ℕ → Bytes → Bytes
snprintf size text = take (size - 1) text
