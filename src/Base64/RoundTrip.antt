-- ===== src/Base64/RoundTrip.antt =====
-- Decoding what was encoded.
use ken_code_de_bridge.Base.{
  Bool, Bool-cases, Bytes, [], ap, arith, false, if◌then◌else◌, inl, inr, length, not, ok, refl,
  suc, true, zero, ℕ, ◌%◌, ◌&&◌, ◌*◌, ◌++◌, ◌+◌, ◌/◌, ◌<◌, ◌==◌, ◌>>=◌, ◌∙◌, ◌∷◌, ◌≡◌, ◌⊎◌,
}
use ken_code_de_bridge.Base64.{
  base64_decode, base64_encode, char_of, decode_from, encode_from, revchar, unpad, without_last,
}
use ken_code_de_bridge.Https.Hex.{AllBytes}

abbrev holds_below : ℕ → (ℕ → Bool) → Bool
holds_below zero test = true
holds_below (suc n) test = test n && holds_below n test

holds_below-at : (n i : ℕ) (test : ℕ → Bool) → holds_below n test ≡ true → i < n → test i ≡ true
holds_below-at zero i test h lt = absurd (omega arith)
holds_below-at (suc n) i test h lt =
    let (here, below) = both (test n) (holds_below n test) h in
    elim (i-cases i n lt) [ inl e ↦ rw e here | inr l ↦ holds_below-at n i test below l ]
  where
    both : (b c : Bool) → (b && c) ≡ true → (b ≡ true) × (c ≡ true)
    both true c h = (refl, h)
    both false c h = cc

    i-cases : (i n : ℕ) → i < suc n → (i ≡ n) ⊎ (i < n)
    i-cases i n h = ground arith

revchar-table : holds_below 64 (λ n. (revchar (char_of n) == n) && not (char_of n == b'=')) ≡ true
unfolding revchar
revchar-table = refl

revchar-char_of : (n : ℕ) → n < 64 → (revchar (char_of n) ≡ n) × ((char_of n == b'=') ≡ false)
revchar-char_of n h =
    let t =
      holds_below-at 64 n (λ n. (revchar (char_of n) == n) && not (char_of n == b'=')) revchar-table
        h in
    (ground (arith, t), ground (arith, t))

-- The text without its padding.
abbrev unpadded : Bytes → Bytes
unpadded [] = []
unpadded (a ∷ []) = char_of (a / 4) ∷ char_of (a % 4 * 16) ∷ []
unpadded (a ∷ b ∷ []) = char_of (a / 4) ∷ char_of (a % 4 * 16 + b / 16) ∷ char_of (b % 16 * 4) ∷ []
unpadded (a ∷ b ∷ c ∷ rest) =
    char_of (a / 4)
    ∷ char_of (a % 4 * 16 + b / 16)
    ∷ char_of (b % 16 * 4 + c / 64)
    ∷ char_of (c % 64)
    ∷ unpadded rest

encode_block :
    (i a b c : ℕ) (rest : Bytes)
    → encode_from i false (a ∷ b ∷ c ∷ rest)
      ≡ char_of (a / 4)
        ∷ char_of (a % 4 * 16 + b / 16)
        ∷ char_of (b % 16 * 4 + c / 64)
        ∷ char_of (c % 64)
        ∷ encode_from (i + 4) false rest
unfolding encode_from
encode_block i a b c rest = elim (Bool-cases (i % 77 == 0)) [ inl e ↦ rw e | inr e ↦ rw e ]

encode_shape :
    (i a : ℕ) (bytes : Bytes)
    → (p : ℕ) × (q : ℕ) × (text : Bytes) × (encode_from i false (a ∷ bytes) ≡ p ∷ q ∷ text)
unfolding encode_from
encode_shape i a [] = (_, _, _, refl)
encode_shape i a (b ∷ []) = (_, _, _, refl)
encode_shape i a (b ∷ c ∷ rest) = (_, _, _, encode_block i a b c rest)

without_last-behind :
    (w x y z p q : ℕ) (text : Bytes)
    → without_last (without_last (w ∷ x ∷ y ∷ z ∷ p ∷ q ∷ text))
      ≡ w ∷ x ∷ y ∷ z ∷ without_last (without_last (p ∷ q ∷ text))
unfolding without_last
without_last-behind w x y z p q text = refl

without_last-encode :
    (i a : ℕ) (bytes : Bytes)
    → AllBytes (a ∷ bytes)
    → without_last (without_last (encode_from i false (a ∷ bytes))) ≡ unpadded (a ∷ bytes)
without_last-encode i a [] h = unfold encode_from in unfold without_last in refl
without_last-encode i a (b ∷ []) (ha, (hb, h)) =
    let (e, f) = revchar-char_of (b % 16 * 4) (omega arith) in
    unfold encode_from in unfold without_last in rw f
without_last-encode i a (b ∷ c ∷ []) (ha, (hb, (hc, h))) =
    let (e, f) = revchar-char_of (c % 64) (omega arith) in
    rw (encode_block i a b c []) (unfold encode_from in unfold without_last in rw (f, f))
without_last-encode i a (b ∷ c ∷ d ∷ rest) (ha, (hb, (hc, h))) =
    let (p, q, text, e) = encode_shape (i + 4) d rest in
    let later = without_last-encode (i + 4) d rest h in
    rw (encode_block i a b c (d ∷ rest), e)
      (without_last-behind _ _ _ _ p q text
        ∙ ap
            (λ x.
              char_of (a / 4)
              ∷ char_of (a % 4 * 16 + b / 16)
              ∷ char_of (b % 16 * 4 + c / 64)
              ∷ char_of (c % 64)
              ∷ x)
            (rw e at later))

first_byte : (a b : ℕ) → a < 256 → b < 256 → (a / 4 * 4 + (a % 4 * 16 + b / 16) / 16 % 4) % 256 ≡ a
first_byte a b ha hb = omega arith

second_byte :
    (a b c : ℕ)
    → b < 256
    → c < 256
    → ((a % 4 * 16 + b / 16) * 16 + (b % 16 * 4 + c / 64) / 4) % 256 ≡ b
second_byte a b c hb hc = omega arith

third_byte : (b c : ℕ) → c < 256 → ((b % 16 * 4 + c / 64) * 64 + c % 64) % 256 ≡ c
third_byte b c hc = omega arith

-- One byte more where the last block is not whole.
abbrev pub surplus : Bytes → Bytes
surplus bytes = if length bytes % 3 == 0 then [] else 0 ∷ []

surplus-block : (a b c : ℕ) (rest : Bytes) → surplus (a ∷ b ∷ c ∷ rest) ≡ surplus rest
surplus-block a b c rest =
    let e : suc (suc (suc (length rest))) % 3 ≡ length rest % 3 = omega arith in rw e

decode_from-unpadded :
    (bytes : Bytes) → AllBytes bytes → decode_from (unpadded bytes) ≡ bytes ++ surplus bytes
unfolding decode_from
decode_from-unpadded [] h = refl
decode_from-unpadded (a ∷ []) (ha, h) =
    let (e, _) = revchar-char_of (a / 4) (omega arith) in
    let (e', _) = revchar-char_of (a % 4 * 16) (omega arith) in
    let x : (a / 4 * 4 + a % 4 * 16 / 16 % 4) % 256 ≡ a = omega arith in
    let y : a % 4 * 16 * 16 % 256 ≡ 0 = omega arith in rw (e, e', x, y)
decode_from-unpadded (a ∷ b ∷ []) (ha, (hb, h)) =
    let (e, _) = revchar-char_of (a / 4) (omega arith) in
    let (e', _) = revchar-char_of (a % 4 * 16 + b / 16) (omega arith) in
    let (e'', _) = revchar-char_of (b % 16 * 4) (omega arith) in
    let y : ((a % 4 * 16 + b / 16) * 16 + b % 16 * 4 / 4) % 256 ≡ b = omega arith in
    let z : b % 16 * 4 * 64 % 256 ≡ 0 = omega arith in rw (e, e', e'', first_byte a b ha hb, y, z)
decode_from-unpadded (a ∷ b ∷ c ∷ rest) (ha, (hb, (hc, h))) =
    let (e, _) = revchar-char_of (a / 4) (omega arith) in
    let (e', _) = revchar-char_of (a % 4 * 16 + b / 16) (omega arith) in
    let (e'', _) = revchar-char_of (b % 16 * 4 + c / 64) (omega arith) in
    let (e''', _) = revchar-char_of (c % 64) (omega arith) in
    rw (
      e,
      e',
      e'',
      e''',
      first_byte a b ha hb,
      second_byte a b c hb hc,
      third_byte b c hc,
      surplus-block a b c rest,
      decode_from-unpadded rest h,
    )

unpad_twice :
    (p q : ℕ) (text : Bytes)
    → (unpad (p ∷ q ∷ text) >>= λ once. unpad once >>= λ twice. ok (decode_from twice))
      ≡ ok (decode_from (without_last (without_last (p ∷ q ∷ text))))
unfolding unpad without_last
unpad_twice p q text = refl

-- One byte or more, encoded with no line breaks and decoded, come back, but with one byte 0 behind them
-- where their number is no multiple of three.
pub base64_decode-encode :
    (a : ℕ) (bytes : Bytes)
    → AllBytes (a ∷ bytes)
    → base64_decode (base64_encode (a ∷ bytes) false) ≡ ok ((a ∷ bytes) ++ surplus (a ∷ bytes))
unfolding base64_decode base64_encode
base64_decode-encode a bytes h =
    let (p, q, text, e) = encode_shape 0 a bytes in
    let stripped = without_last-encode 0 a bytes h in
    rw e (unpad_twice p q text)
    ∙ ap (λ t. ok (decode_from t)) (rw e at stripped)
    ∙ ap ok (decode_from-unpadded (a ∷ bytes) h)
