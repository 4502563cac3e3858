-- ===== src/Poloniex/Endless.antt =====
-- `poloniex_parse_market` at a ticker with no underscore.
use ken_code_de_bridge.Base.{
  Bytes, Floats, List, [], arith, codes, none, ok, out_of_fuel, refl, some, split_at, suc, true,
  zero, ℕ, ◌++◌, ◌+◌, ◌∙◌, ◌∷◌, ◌≡◌, ◌≢◌,
}
use ken_code_de_bridge.Book.{Market}
use ken_code_de_bridge.Json.{Token, string}
use ken_code_de_bridge.Json.Views.{At, At-head, View, lacks}
use ken_code_de_bridge.Tickers.Rows.{
  AllInOrder, Row, before_key, find_next-row, find_next-stays, rows_views,
}
use ken_code_de_bridge.Poloniex.{markets_loop, poloniex_find_next_market_type}
use ken_code_de_bridge.Poloniex.Markets.{Pair, loop_round, round_stuck, rows_of}

module _ {D : Type 0} (floats : Floats D) (json : Bytes) (tokens : List Token) (n : ℕ) where
  loop_stays :
      (fuel k : ℕ) (head : List (Market D)) (name : Bytes)
      → poloniex_find_next_market_type json tokens n (suc k) ≡ ok (suc k, some name)
      → split_at b'_' name ≡ none
      → markets_loop floats json tokens n fuel (suc k) head ≡ out_of_fuel
  loop_stays zero k head name e no_pair = unfold markets_loop in refl
  loop_stays (suc fuel) k head name e no_pair =
      round_stuck floats json tokens n fuel (suc k) k head name e (λ z. cc z) no_pair
      ∙ loop_stays fuel k head name e no_pair

  loop_endless :
      (pairs : List Pair) (r : Row) (rest : List View) (fuel i : ℕ) (head : List (Market D))
      → At json tokens n i
          (rows_views (codes "id") (rows_of pairs) (before_key r ++ (string, codes "id") ∷ rest))
      → i ≢ 0
      → AllInOrder (codes "id") (rows_of pairs)
      → lacks (codes "id") (before_key r) ≡ true
      → split_at b'_' r.name ≡ none
      → markets_loop floats json tokens n fuel i head ≡ out_of_fuel
  unfolding poloniex_find_next_market_type
  loop_endless pairs r rest zero i head at ne o l no_pair = unfold markets_loop in refl
  loop_endless [] r rest (suc fuel) i head at ne o l no_pair =
      let (k, e, again) = find_next-stays (codes "id") json tokens n i r rest at l in
      round_stuck floats json tokens n fuel i k head r.name e ne no_pair
      ∙ loop_stays fuel k head r.name again no_pair
  loop_endless (p ∷ pairs) r rest (suc fuel) i head at ne (lr, o) l no_pair =
      let (k, e, later) = find_next-row (codes "id") json tokens n i p.row _ at lr in
      loop_round floats json tokens n fuel i k head p e ne
      ∙ loop_endless pairs r rest fuel (suc k + 1) _ later (λ z. absurd (omega (arith, z))) o l
          no_pair

  -- Where a market's name has no underscore, the loop over the markets never ends: no fuel is enough.
  pub markets_loop-endless :
      (fuel : ℕ) (v : View) (pairs : List Pair) (r : Row) (rest : List View)
      → At json tokens n 0 (
          v ∷ rows_views (codes "id") (rows_of pairs) (before_key r ++ (string, codes "id") ∷ rest))
      → AllInOrder (codes "id") (rows_of pairs)
      → lacks (codes "id") (before_key r) ≡ true
      → split_at b'_' r.name ≡ none
      → markets_loop floats json tokens n fuel 1 [] ≡ out_of_fuel
  markets_loop-endless fuel v pairs r rest at o l no_pair =
      let (t, there, is, reads, later) = At-head json tokens n 0 _ _ at in
      loop_endless pairs r rest fuel 1 [] later (λ z. absurd (omega (arith, z))) o l no_pair
