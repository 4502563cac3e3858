-- ===== src/Https/Nonce.antt =====
-- utils/https.c: `utils_https_get_nonce`, and what `utils_https_free` gives back.
use ken_code_de_bridge.Base.{
  Bool-cases, Bytes, [], ap, arith, false, if◌then◌else◌, inl, inr, length, ltb, snprintf, suc,
  take-all, true, zero, ℕ, ◌%◌, ◌*◌, ◌+◌, ◌-◌, ◌/◌, ◌<◌, ◌^◌, ◌∙◌, ◌∷◌, ◌≡◌, ◌≤◌,
}

-- `%lu`, the last digit last; twenty digits are enough for a word of 64 bits.
abbrev digits : ℕ → ℕ → Bytes → Bytes
digits zero n behind = behind
digits (suc fuel) n behind =
    let more = digits fuel (n / 10) ((b'0' + n % 10) ∷ behind) in
    if ltb n 10 then (b'0' + n) ∷ behind else more

abbrev pub decimal : ℕ → Bytes
decimal n = digits 20 n []

-- The microseconds of the clock, in a word of 64 bits, in 40 bytes.
unfoldable pub utils_https_get_nonce : ℕ → ℕ → Bytes
utils_https_get_nonce tv_sec tv_usec =
    snprintf 40 (decimal ((tv_sec * 1_000_000 + tv_usec) % 2 ^ 64))

-- The number that a text of digits stands for, from its left.
abbrev pub value : ℕ → Bytes → ℕ
value n [] = n
value n (c ∷ text) = value (n * 10 + (c - b'0')) text

digits_round :
    (fuel n : ℕ) (behind : Bytes)
    → 10 ≤ n
    → digits (suc fuel) n behind ≡ digits fuel (n / 10) ((b'0' + n % 10) ∷ behind)
digits_round fuel n behind h = let test : ltb n 10 ≡ false = ground arith in rw test

digits_last :
    (fuel n : ℕ) (behind : Bytes) → n < 10 → digits (suc fuel) n behind ≡ (b'0' + n) ∷ behind
digits_last fuel n behind h = let test : ltb n 10 ≡ true = ground arith in rw test

abbrev ten_to : ℕ → ℕ
ten_to zero = 1
ten_to (suc k) = 10 * ten_to k

value_digit :
    (n d m : ℕ) (behind : Bytes) → n * 10 + d ≡ m → value n ((b'0' + d) ∷ behind) ≡ value m behind
value_digit n d m behind e = ap (λ x. value x behind) (omega (arith, e))

digits-value :
    (fuel n : ℕ) (behind : Bytes)
    → n < ten_to (suc fuel)
    → value 0 (digits (suc fuel) n behind) ≡ value n behind
digits-value zero n behind h =
    ap (value 0) (digits_last zero n behind (omega arith)) ∙ value_digit 0 n n behind (omega arith)
digits-value (suc fuel) n behind h = elim (Bool-cases (ltb n 10)) [
  | inl t ↦
      ap (value 0) (digits_last (suc fuel) n behind (ground arith))
      ∙ value_digit 0 n n behind (omega arith)
  | inr f ↦
      ap (value 0) (digits_round (suc fuel) n behind (ground arith))
      ∙ digits-value fuel (n / 10) ((b'0' + n % 10) ∷ behind) (omega arith)
      ∙ value_digit (n / 10) (n % 10) n behind (omega arith)
]

length-digits : (fuel n : ℕ) (behind : Bytes) → length (digits fuel n behind) ≤ fuel + length behind
length-digits zero n behind = omega arith
length-digits (suc fuel) n behind = elim (Bool-cases (ltb n 10)) [
  | inl t ↦ omega (arith, ap length (digits_last fuel n behind (ground arith)))
  | inr f ↦ omega (
    arith,
    ap length (digits_round fuel n behind (ground arith)),
    length-digits fuel (n / 10) ((b'0' + n % 10) ∷ behind),
  )
]

-- The 40 bytes hold the text, whose number is that of the microseconds: nothing is cut.
pub utils_https_get_nonce-value :
    (tv_sec tv_usec : ℕ)
    → value 0 (utils_https_get_nonce tv_sec tv_usec) ≡ (tv_sec * 1_000_000 + tv_usec) % 2 ^ 64
unfolding utils_https_get_nonce
utils_https_get_nonce-value tv_sec tv_usec =
    let n = (tv_sec * 1_000_000 + tv_usec) % 2 ^ 64 in
    ap (value 0) (take-all 39 (decimal n) (omega (arith, length-digits 20 n [])))
    ∙ digits-value 19 n [] (omega arith)
