-- ===== src/Btc38/Markets.antt =====
-- `btc38_parse_market` over an answer that lays out its markets one by one.
use ken_code_de_bridge.Base.{
  Bytes, Floats, List, [], ap, append-nil, append_assoc, arith, codes, false, length, none, ok, pos,
  some, suc, true, zero, ℕ, ◌++◌, ◌+◌, ◌<◌, ◌==◌, ◌∙◌, ◌∷◌, ◌≡◌, ◌≢◌,
}
use ken_code_de_bridge.Book.{Market}
use ken_code_de_bridge.Json.{Token, Tokenizer}
use ken_code_de_bridge.Json.Views.{At, At-head, View, lacks}
use ken_code_de_bridge.Tickers.Rows.{
  AllInOrder, Row, find_next-none, find_next-row, length-rows_views, rows_views,
}
use ken_code_de_bridge.Btc38.{btc38_parse_market, find_next_market_type, market_of, markets_loop}

module _ {D : Type 0} (floats : Floats D) where
  -- A market for each name.
  abbrev pub markets_of : Bytes → List Row → List (Market D)
  markets_of base_currency [] = []
  markets_of base_currency (r ∷ rows) =
      market_of floats base_currency r.name ∷ markets_of base_currency rows

  module _ (json : Bytes) (tokens : List Token) (n : ℕ) (base : Bytes) where
    loop_round :
        (fuel i k : ℕ) (head : List (Market D)) (name : Bytes)
        → find_next_market_type json tokens n i ≡ ok (suc k, some name)
        → i ≢ 0
        → markets_loop floats json tokens n base (suc fuel) i head
          ≡ markets_loop floats json tokens n base fuel
              (suc k + 1)
              (head ++ market_of floats base name ∷ [])
    unfolding markets_loop
    loop_round fuel i k head name e ne =
        let test : (i == 0) ≡ false = ground arith in
        let test' : (suc k == 0) ≡ false = ground arith in rw (test, e, test')

    loop_last :
        (fuel i : ℕ) (head : List (Market D))
        → find_next_market_type json tokens n i ≡ ok (0, none)
        → i ≢ 0
        → markets_loop floats json tokens n base (suc (suc fuel)) i head ≡ ok head
    unfolding markets_loop
    loop_last fuel i head e ne = let test : (i == 0) ≡ false = ground arith in rw (test, e)

    loop-rows :
        (rows : List Row) (tail : List View) (fuel i : ℕ) (head : List (Market D))
        → At json tokens n i (rows_views (codes "ticker") rows tail)
        → i ≢ 0
        → AllInOrder (codes "ticker") rows
        → lacks (codes "ticker") tail ≡ true
        → length rows + 1 < fuel
        → markets_loop floats json tokens n base fuel i head ≡ ok (head ++ markets_of base rows)
    unfolding find_next_market_type
    loop-rows rows tail zero i head at ne o l h = absurd (omega arith)
    loop-rows [] tail (suc zero) i head at ne o l h = absurd (omega arith)
    loop-rows [] tail (suc (suc fuel)) i head at ne o l h =
        loop_last fuel i head (find_next-none (codes "ticker") json tokens n i tail at l) ne
        ∙ rw append-nil
    loop-rows (r ∷ rows) tail (suc fuel) i head at ne (lr, o) l h =
        let (k, e, later) = find_next-row (codes "ticker") json tokens n i r _ at lr in
        loop_round fuel i k head r.name e ne
        ∙ loop-rows rows tail fuel (suc k + 1) _ later (λ z. absurd (omega (arith, z))) o l
            (omega arith)
        ∙ ap ok (append_assoc head (market_of floats base r.name ∷ []) _)

  -- An answer that lays out its markets one by one, behind its opening bracket, gives them all, in
  -- order: names, upper-case currencies, the path to the book, and the fee 0.7.
  pub btc38_parse_market-rows :
      (jsmn : Tokenizer) (json : Bytes) (tokens : List Token) (n : ℕ) (base : Bytes) (v : View)
      (rows : List Row) (tail : List View)
      → jsmn json 65535 ≡ (pos n, tokens)
      → At json tokens n 0 (v ∷ rows_views (codes "ticker") rows tail)
      → AllInOrder (codes "ticker") rows
      → lacks (codes "ticker") tail ≡ true
      → btc38_parse_market floats jsmn json base ≡ ok (markets_of base rows)
  unfolding btc38_parse_market
  btc38_parse_market-rows jsmn json tokens n base v rows tail parsed at o l =
      let (t, there, is, reads, later) = At-head json tokens n 0 _ _ at in
      rw parsed (
        loop-rows json tokens n base rows tail (n + 2) 1 [] later (λ z. absurd (omega (arith, z))) o
          l (omega (arith, later.count, length-rows_views (codes "ticker") rows tail)))
