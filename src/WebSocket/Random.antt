-- ===== src/WebSocket/Random.antt =====
-- utils/websocket.c: the random bytes of the key, and those of a mask. A read of /dev/urandom gives
-- the next bytes of a list.
use ken_code_de_bridge.Base.{
  Bool-cases, Bytes, Option, Outcome, [], arith, drop, fault, if◌then◌else◌, inl, inr, leb, length,
  length-set, length-take, none, ok, out_of_fuel, refl, set, some, suc, take, true, zero, ℕ, ◌<◌,
  ◌==◌, ◌∙◌, ◌∷◌, ◌≡◌, ◌≤◌,
}

-- `memchr (buf, '\0', n)`, as a position.
abbrev later_by_one : Option ℕ → Option ℕ
later_by_one none = none
later_by_one (some p) = some (suc p)

abbrev pub find_nul : Bytes → Option ℕ
find_nul [] = none
find_nul (zero ∷ buf) = some 0
find_nul (suc c ∷ buf) = later_by_one (find_nul buf)

-- The loop: the byte at the NUL is read again.
again_at : (Bytes → Outcome Bytes) → Bytes → ℕ → Option ℕ → Outcome Bytes
again_at next buf c none = ok buf
again_at next buf c (some p) = next (set buf p c)

without_nul : Option ℕ → Bytes → Outcome Bytes
without_nul none buf = ok buf
without_nul (some p) buf = out_of_fuel

unfoldable pub replace_nul : Bytes → Bytes → Outcome Bytes
unfolding again_at without_nul
replace_nul [] buf = without_nul (find_nul buf) buf
replace_nul (c ∷ urandom) buf = again_at (λ longer. replace_nul urandom longer) buf c (find_nul buf)

-- Without /dev/urandom the buffer is memory that nothing has written.
unfoldable pub get_random16 : Option Bytes → Outcome Bytes
unfolding replace_nul
get_random16 none = fault
get_random16 (some urandom) =
    if leb 16 (length urandom) then replace_nul (drop 16 urandom) (take 16 urandom) else out_of_fuel

-- What is read of `len` bytes, and what is left.
unfoldable pub websocket_client_get_random : Bytes → ℕ → Bytes × Bytes
websocket_client_get_random urandom len = (take len urandom, drop len urandom)

-- `genmask_callback` returns 0.
unfoldable pub genmask_callback : Bytes → ℕ → ℕ × (Bytes × Bytes)
unfolding websocket_client_get_random
genmask_callback urandom len = (0, websocket_client_get_random urandom len)

abbrev pub NoNul : Bytes → Type 0
NoNul [] = Unit
NoNul (c ∷ buf) = (0 < c) × NoNul buf

abbrev nuls : Bytes → ℕ
nuls [] = 0
nuls (zero ∷ buf) = suc (nuls buf)
nuls (suc c ∷ buf) = nuls buf

-- The bytes that are none.
abbrev others : Bytes → ℕ
others [] = 0
others (zero ∷ spare) = others spare
others (suc c ∷ spare) = suc (others spare)

find_nul-none : (buf : Bytes) → nuls buf ≡ 0 → find_nul buf ≡ none
find_nul-none [] e = refl
find_nul-none (zero ∷ buf) e = absurd (omega (arith, e))
find_nul-none (suc c ∷ buf) e = rw (find_nul-none buf e)

nuls-NoNul : (buf : Bytes) → nuls buf ≡ 0 → NoNul buf
nuls-NoNul [] e = tt
nuls-NoNul (zero ∷ buf) e = absurd (omega (arith, e))
nuls-NoNul (suc c ∷ buf) e = (omega arith, nuls-NoNul buf e)

-- A NUL that is found, and what a byte in its place leaves.
find_nul-some :
    (buf : Bytes)
    → 0 < nuls buf
    → (p : ℕ) × (find_nul buf ≡ some p)
      × (nuls (set buf p 0) ≡ nuls buf)
      × ((c : ℕ) → suc (nuls (set buf p (suc c))) ≡ nuls buf)
find_nul-some [] h = absurd (omega arith)
find_nul-some (zero ∷ buf) h = (0, refl, refl, λ c. refl)
find_nul-some (suc c ∷ buf) h =
    let (p, e, same, fewer) = find_nul-some buf h in (suc p, rw e, same, fewer)

finds_none : (spare buf : Bytes) → nuls buf ≡ 0 → replace_nul spare buf ≡ ok buf
unfolding replace_nul again_at without_nul
finds_none [] buf e = rw (find_nul-none buf e)
finds_none (c ∷ spare) buf e = rw (find_nul-none buf e)

next_round :
    (c p : ℕ) (spare buf : Bytes)
    → find_nul buf ≡ some p
    → replace_nul (c ∷ spare) buf ≡ replace_nul spare (set buf p c)
unfolding replace_nul again_at
next_round c p spare buf e = rw e

-- What a loop over these bytes ends with.
abbrev EndsWell : Bytes → Bytes → Type 0
EndsWell spare buf =
    (key : Bytes) × (replace_nul spare buf ≡ ok key) × NoNul key × (length key ≡ length buf)

ends_at_once : (spare buf : Bytes) → nuls buf ≡ 0 → EndsWell spare buf
ends_at_once spare buf none_left =
    (buf, finds_none spare buf none_left, nuls-NoNul buf none_left, refl)

ends_later :
    (c p : ℕ) (spare buf : Bytes)
    → find_nul buf ≡ some p
    → EndsWell spare (set buf p c)
    → EndsWell (c ∷ spare) buf
ends_later c p spare buf e (key, done, good, long) =
    (key, next_round c p spare buf e ∙ done, good, long ∙ length-set buf p c)

replace_nul-NoNul : (spare buf : Bytes) → nuls buf ≤ others spare → EndsWell spare buf
replace_nul-NoNul [] buf enough = ends_at_once [] buf (omega arith)
replace_nul-NoNul (zero ∷ spare) buf enough = elim (Bool-cases (nuls buf == 0)) [
  | inl t ↦ ends_at_once (zero ∷ spare) buf (ground arith)
  | inr f ↦
      let (p, e, same, fewer) = find_nul-some buf (ground arith) in
      ends_later 0 p spare buf e (replace_nul-NoNul spare (set buf p 0) (omega (arith, same)))
]
replace_nul-NoNul (suc c ∷ spare) buf enough = elim (Bool-cases (nuls buf == 0)) [
  | inl t ↦ ends_at_once (suc c ∷ spare) buf (ground arith)
  | inr f ↦
      let (p, e, same, fewer) = find_nul-some buf (ground arith) in
      ends_later (suc c) p spare buf e
        (replace_nul-NoNul spare (set buf p (suc c)) (omega (arith, fewer c)))
]

-- Where enough of the bytes behind the first sixteen are no NUL, the loop ends, with sixteen bytes
-- that are none.
pub get_random16-NoNul :
    (urandom : Bytes)
    → 16 ≤ length urandom
    → nuls (take 16 urandom) ≤ others (drop 16 urandom)
    → (key : Bytes) × (get_random16 (some urandom) ≡ ok key) × NoNul key × (length key ≡ 16)
unfolding get_random16
get_random16-NoNul urandom long enough =
    let there : leb 16 (length urandom) ≡ true = ground arith in
    let (key, done, good, same) = replace_nul-NoNul (drop 16 urandom) (take 16 urandom) enough in
    (key, rw there done, good, omega (arith, same, length-take 16 urandom))
