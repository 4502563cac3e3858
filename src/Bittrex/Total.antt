-- ===== src/Bittrex/Total.antt =====
-- The parsers of book/bittrex.c end on any tokens, and what they return is complete.
use ken_code_de_bridge.Base.{
  Bool, Bytes, Ensures, Ensures-bind, Ensures-if, Ensures-step, Floats, List, Option, [], arith,
  false, if◌then◌else◌, inl, inr, negsuc, none, ok, pos, refl, some, suc, true, zero, ℕ, ℤ, ◌+◌,
  ◌<◌, ◌==◌, ◌||◌, ◌∷◌, ◌≡◌, ◌≢◌, ◌≤◌, ◌⊎◌,
}
use ken_code_de_bridge.Book.{Market}
use ken_code_de_bridge.Json.{Token, Tokenizer}
use ken_code_de_bridge.Json.Progress.{
  Advances, StringOrZero, json_get_double_value-GoesOn, json_get_int_value-GoesOn,
  json_get_string_value-StringOrZero,
}
use ken_code_de_bridge.Bittrex.{
  appended, book_bittrex_parse_market, is_zero, markets_from_start, markets_loop,
  parse_market_tokens, read_market,
}

module _ {D : Type 0} (floats : Floats D) where
  -- The three strings are there, so that no reader meets NULL, and the fee is 0.7.
  pub record IsListed (m : Market D) : Type 0 where
    pub name : Bytes
    pub has_name : m.market_name ≡ some name
    pub currency : Bytes
    pub has_currency : m.market_currency ≡ some currency
    pub base : Bytes
    pub has_base : m.base_currency ≡ some base
    pub has_fee : m.fee ≡ floats.literal 7 1

  abbrev pub AllListed : List (Market D) → Type 0
  AllListed [] = Unit
  AllListed (m ∷ ms) = IsListed m × AllListed ms

  abbrev OptionListed : Option (Market D) → Type 0
  OptionListed none = Unit
  OptionListed (some m) = IsListed m

  AllListed-appended :
      (head : List (Market D)) (current : Option (Market D))
      → AllListed head
      → OptionListed current
      → AllListed (appended head current)
  AllListed-appended head none h c = h
  AllListed-appended [] (some m) h c = (c, tt)
  AllListed-appended (x ∷ head) (some m) (hx, h) c = (hx, AllListed-appended head (some m) h c)

  module _ (json : Bytes) (tokens : List Token) (n : ℕ) where
    abbrev Round : ℕ → ℕ × Option (Market D) → Type 0
    Round i r = Advances i n r.0 × OptionListed r.1

    present :
        (from p : ℕ) (o : Option Bytes)
        → StringOrZero from n (p, o)
        → p ≢ 0
        → (str : Bytes) × (o ≡ some str)
    present from p o (inl z) np = absurd (np z)
    present from p o (inr (lo, hi, there)) np = there

    string-Advances :
        (from p : ℕ) (o : Option Bytes) → StringOrZero from n (p, o) → Advances from n p
    string-Advances from p o (inl z) = inl z
    string-Advances from p o (inr (lo, hi, there)) = inr (lo, hi)

    then-Advances : (a b c : ℕ) → Advances a n b → b ≢ 0 → Advances b n c → Advances a n c
    then-Advances a b c (inl z) ne h = absurd (ne z)
    then-Advances a b c (inr (lo, hi)) ne (inl z) = inl z
    then-Advances a b c (inr (lo, hi)) ne (inr (lo', hi')) = inr (omega arith, hi')

    finishes :
        (i t : ℕ) (b : Bool) (m : Market D)
        → Advances i n t
        → IsListed m
        → Ensures (Round i) (if b then ok (t, none) else ok (t, some m))
    finishes i t true m h l = (h, tt)
    finishes i t false m h l = (h, l)

    read_market-Round : (i : ℕ) → Ensures (Round i) (read_market floats json tokens n i)
    unfolding read_market
    read_market-Round i =
        Ensures-step (StringOrZero i n) (Round i) _ _ _
          (json_get_string_value-StringOrZero json tokens n i _ _) (inl refl, tt)
          λ (p, currency) hp np.
            Ensures-step (StringOrZero p n) (Round i) _ _ _
              (json_get_string_value-StringOrZero json tokens n p _ _) (inl refl, tt)
              λ (q, base) hq nq.
                Ensures-step (λ r. Advances q n r.0) (Round i) _ _ _
                  (json_get_double_value-GoesOn json tokens n q floats _ _) (inl refl, tt)
                  λ (r, size) hr nr.
                    Ensures-step (StringOrZero r n) (Round i) _ _ _
                      (json_get_string_value-StringOrZero json tokens n r _ _) (inl refl, tt)
                      λ (s, name) hs ns.
                        Ensures-bind (λ r. Advances s n r.0) (Round i) _ _
                          (json_get_int_value-GoesOn json tokens n s _ _)
                          λ (t, active) ht.
                            finishes i t (t == 0 || is_zero active) _
                              (then-Advances i p t (string-Advances i p _ hp) np (
                                then-Advances p q t (string-Advances p q _ hq) nq (
                                  then-Advances q r t hr nr
                                    (then-Advances r s t (string-Advances r s _ hs) ns ht))))
                              (let (str, e) = present i p currency hp np in
                                let (str', e') = present p q base hq nq in
                                let (str'', e'') = present r s name hs ns in
                                record {
                                  name = str'';
                                  has_name = e'';
                                  currency = str;
                                  has_currency = e;
                                  base = str';
                                  has_base = e';
                                  has_fee = refl;
                                })

    -- The fuel is enough from a position on: the positions grow up to `n`, then comes 0.
    abbrev Enough : ℕ → ℕ → Type 0
    Enough fuel i = ((i ≡ 0) × (0 < fuel)) ⊎ ((i ≤ n) × (n + 2 ≤ fuel + i))

    Enough-next :
        (fuel i next : ℕ) → i ≢ 0 → Enough (suc fuel) i → Advances i n next → Enough fuel next
    Enough-next fuel i next ne (inl (z, h)) a = absurd (ne z)
    Enough-next fuel i next ne (inr (le, h)) (inl z) = inl (z, omega arith)
    Enough-next fuel i next ne (inr (le, h)) (inr (lo, hi)) = inr (hi, omega arith)

    markets_loop-AllListed :
        (fuel i : ℕ) (acc : List (Market D))
        → Enough fuel i
        → AllListed acc
        → Ensures AllListed (markets_loop floats json tokens n fuel i acc)
    unfolding markets_loop
    markets_loop-AllListed zero i acc (inl (z, h)) l = absurd (omega arith)
    markets_loop-AllListed zero i acc (inr (le, h)) l = absurd (omega arith)
    markets_loop-AllListed (suc fuel) zero acc enough l = l
    markets_loop-AllListed (suc fuel) (suc i) acc enough l =
        let test : (suc i == 0) ≡ false = ground arith in
        rw test (
          Ensures-bind (Round (suc i)) AllListed _ _ (read_market-Round (suc i))
            λ (next, current) (a, c).
              markets_loop-AllListed fuel next _
                (Enough-next fuel (suc i) next (λ e. cc e) enough a)
                (AllListed-appended acc current l c))

    from_zero : (start : ℕ) → Advances 0 n start → Enough (n + 2) start
    from_zero start (inl z) = inl (z, omega arith)
    from_zero start (inr (lo, hi)) = inr (hi, omega arith)

    from_start-AllListed : Ensures AllListed (markets_from_start floats json tokens n)
    unfolding markets_from_start
    from_start-AllListed =
        Ensures-bind (λ r. Advances 0 n r.0) AllListed _ _
          (json_get_int_value-GoesOn json tokens n 0 _ _)
          λ (start, success) h.
            Ensures-if AllListed (start == 0 || is_zero success) (ok [])
              (markets_loop floats json tokens n (n + 2) start []) tt
              (markets_loop-AllListed (n + 2) start [] (from_zero start h) tt)

  -- Whatever the tokenizer makes of the answer, the loops over it end with the fuel given; and if no
  -- read is out of place, each market of the list has its three strings and the fee 0.7.
  pub book_bittrex_parse_market-AllListed :
      (jsmn : Tokenizer) (answer : Option Bytes)
      → Ensures AllListed (book_bittrex_parse_market floats jsmn answer)
  unfolding book_bittrex_parse_market
  book_bittrex_parse_market-AllListed jsmn none = tt
  book_bittrex_parse_market-AllListed jsmn (some json) = go (jsmn json 65535)
    where
      go : (r : ℤ × List Token) → Ensures AllListed (parse_market_tokens floats jsmn json r)
      go (negsuc m, tokens) = tt
      go (pos n, tokens) = from_start-AllListed json tokens n
