-- ===== src/Poloniex/Markets.antt =====
-- `poloniex_parse_market` over an answer that lays out its markets one by one.
use ken_code_de_bridge.Base.{
  Bytes, Floats, List, [], ap, append-nil, append_assoc, arith, codes, false, length, none, ok, pos,
  refl, some, split_at, suc, true, zero, ℕ, ◌++◌, ◌+◌, ◌<◌, ◌==◌, ◌∙◌, ◌∷◌, ◌≡◌, ◌≢◌,
}
use ken_code_de_bridge.Book.{Market}
use ken_code_de_bridge.Json.{Token, Tokenizer}
use ken_code_de_bridge.Json.Views.{At, At-head, View, lacks}
use ken_code_de_bridge.Tickers.Rows.{
  AllInOrder, Row, find_next-none, find_next-row, length-rows_views, rows_views,
}
use ken_code_de_bridge.Poloniex.{
  market_of, markets_loop, poloniex_find_next_market_type, poloniex_parse_market,
}

-- The name of the row has an underscore behind `base` and in front of `quoted`, the first one.
pub record Pair : Type 0 where
  pub row : Row
  pub base : Bytes
  pub quoted : Bytes
  pub splits : split_at b'_' row.name ≡ some (base, quoted)

abbrev pub rows_of : List Pair → List Row
rows_of [] = []
rows_of (p ∷ pairs) = p.row ∷ rows_of pairs

module _ {D : Type 0} (floats : Floats D) where
  abbrev pub markets_of : List Pair → List (Market D)
  markets_of [] = []
  markets_of (p ∷ pairs) = market_of floats p.row.name (p.base, p.quoted) ∷ markets_of pairs

  module _ (json : Bytes) (tokens : List Token) (n : ℕ) where
    pub loop_round :
        (fuel i k : ℕ) (head : List (Market D)) (p : Pair)
        → poloniex_find_next_market_type json tokens n i ≡ ok (suc k, some p.row.name)
        → i ≢ 0
        → markets_loop floats json tokens n (suc fuel) i head
          ≡ markets_loop floats json tokens n fuel
              (suc k + 1)
              (head ++ market_of floats p.row.name (p.base, p.quoted) ∷ [])
    unfolding markets_loop
    loop_round fuel i k head p e ne =
        let test : (i == 0) ≡ false = ground arith in
        let test' : (suc k == 0) ≡ false = ground arith in
        let splits = p.splits in rw (test, e, test', splits)

    loop_last :
        (fuel i : ℕ) (head : List (Market D))
        → poloniex_find_next_market_type json tokens n i ≡ ok (0, none)
        → i ≢ 0
        → markets_loop floats json tokens n (suc (suc fuel)) i head ≡ ok head
    unfolding markets_loop
    loop_last fuel i head e ne = let test : (i == 0) ≡ false = ground arith in rw (test, e)

    loop-rows :
        (pairs : List Pair) (tail : List View) (fuel i : ℕ) (head : List (Market D))
        → At json tokens n i (rows_views (codes "id") (rows_of pairs) tail)
        → i ≢ 0
        → AllInOrder (codes "id") (rows_of pairs)
        → lacks (codes "id") tail ≡ true
        → length pairs + 1 < fuel
        → markets_loop floats json tokens n fuel i head ≡ ok (head ++ markets_of pairs)
    unfolding poloniex_find_next_market_type
    loop-rows pairs tail zero i head at ne o l h = absurd (omega arith)
    loop-rows [] tail (suc zero) i head at ne o l h = absurd (omega arith)
    loop-rows [] tail (suc (suc fuel)) i head at ne o l h =
        loop_last fuel i head (find_next-none (codes "id") json tokens n i tail at l) ne
        ∙ rw append-nil
    loop-rows (p ∷ pairs) tail (suc fuel) i head at ne (lr, o) l h =
        let (k, e, later) = find_next-row (codes "id") json tokens n i p.row _ at lr in
        loop_round fuel i k head p e ne
        ∙ loop-rows pairs tail fuel (suc k + 1) _ later (λ z. absurd (omega (arith, z))) o l
            (omega arith)
        ∙ ap ok (append_assoc head (market_of floats p.row.name (p.base, p.quoted) ∷ []) _)

    -- A round at a ticker with no underscore.
    pub round_stuck :
        (fuel i k : ℕ) (head : List (Market D)) (name : Bytes)
        → poloniex_find_next_market_type json tokens n i ≡ ok (suc k, some name)
        → i ≢ 0
        → split_at b'_' name ≡ none
        → markets_loop floats json tokens n (suc fuel) i head
          ≡ markets_loop floats json tokens n fuel (suc k) head
    unfolding markets_loop
    round_stuck fuel i k head name e ne no_pair =
        let test : (i == 0) ≡ false = ground arith in
        let test' : (suc k == 0) ≡ false = ground arith in rw (test, e, test', no_pair)

  length-rows_of : (pairs : List Pair) → length (rows_of pairs) ≡ length pairs
  length-rows_of [] = refl
  length-rows_of (p ∷ pairs) = ap suc (length-rows_of pairs)

  -- An answer that lays out its markets one by one, behind its opening bracket, with an underscore in
  -- each name, gives them all, in order: the name, its two parts, and the fee 0.7.
  pub poloniex_parse_market-rows :
      (jsmn : Tokenizer) (json : Bytes) (tokens : List Token) (n : ℕ) (v : View) (pairs : List Pair)
      (tail : List View)
      → jsmn json 65535 ≡ (pos n, tokens)
      → At json tokens n 0 (v ∷ rows_views (codes "id") (rows_of pairs) tail)
      → AllInOrder (codes "id") (rows_of pairs)
      → lacks (codes "id") tail ≡ true
      → poloniex_parse_market floats jsmn json ≡ ok (markets_of pairs)
  unfolding poloniex_parse_market
  poloniex_parse_market-rows jsmn json tokens n v pairs tail parsed at o l =
      let (t, there, is, reads, later) = At-head json tokens n 0 _ _ at in
      let size = length-rows_views (codes "id") (rows_of pairs) tail in
      rw parsed (
        loop-rows json tokens n pairs tail (n + 2) 1 [] later (λ z. absurd (omega (arith, z))) o l
          (omega (arith, later.count, size, length-rows_of pairs)))
