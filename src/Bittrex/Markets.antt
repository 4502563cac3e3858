-- ===== src/Bittrex/Markets.antt =====
-- `book_bittrex_parse_market` over the answer of `public/getmarkets`, as the tokens lay it out.
use ken_code_de_bridge.Base.{
  Bool-cases, Bytes, Floats, List, Option, [], ap, append-nil, append_assoc, arith, codes, false,
  if◌then◌else◌, inl, inr, length, none, ok, pos, refl, some, suc, true, zero, ℕ, ℤ, ◌++◌, ◌+◌, ◌<◌,
  ◌∙◌, ◌∷◌, ◌≡◌,
}
use ken_code_de_bridge.Book.{Market, zero_double}
use ken_code_de_bridge.Json.{
  Token, Tokenizer, double_of_text, int_of_text, json_get_double_value, json_get_int_value,
  json_get_string_value, primitive, string,
}
use ken_code_de_bridge.Json.Views.{At, View, lacks, view_is}
use ken_code_de_bridge.Json.Seek.{
  json_get_double_value-gap, json_get_int_value-gap, json_get_string_value-gap,
  json_get_string_value-none,
}
use ken_code_de_bridge.Bittrex.{
  appended, book_bittrex_parse_market, is_zero, markets_from_start, markets_loop, read_market,
}
use ken_code_de_bridge.Bittrex.Rows.{
  AllOrderly, IsOrderly, Row, length-rows_views, listed, listing_views, market_of, row_views,
  rows_views,
}

module _ {D : Type 0} (floats : Floats D) (json : Bytes) (tokens : List Token) (n : ℕ) where
  read_market-found :
      (i a b c d e : ℕ) (base currency size name : Bytes) (active : ℤ)
      → json_get_string_value json tokens n i (codes "MarketCurrency") none
        ≡ ok (suc a, some currency)
      → json_get_string_value json tokens n (suc a) (codes "BaseCurrency") none
        ≡ ok (suc b, some base)
      → json_get_double_value floats json tokens n
          (suc b)
          (codes "MinTradeSize")
          (zero_double floats)
        ≡ ok (suc c, double_of_text floats size)
      → json_get_string_value json tokens n (suc c) (codes "MarketName") none
        ≡ ok (suc d, some name)
      → json_get_int_value json tokens n (suc d) (codes "IsActive") (pos 0) ≡ ok (suc e, active)
      → read_market floats json tokens n i
        ≡ ok (
          suc e,
          if is_zero active
              then none
              else some (record {
                market_name = some name;
                market_currency = some currency;
                base_currency = some base;
                min_trade_size = double_of_text floats size;
                fee = floats.literal 7 1;
              }),
        )
  unfolding read_market
  read_market-found i a b c d e base currency size name active ea eb ec ed ee =
      rw (ea, eb, ec, ed, ee)
        (elim (Bool-cases (is_zero active)) [
          | inl z ↦ rw z (ground arith)
          | inr z ↦ rw z (ground arith)
        ])

  read_market-row :
      (i : ℕ) (v : View) (r : Row) (rest : List View)
      → At json tokens n i (v ∷ row_views r rest)
      → view_is (codes "MarketCurrency") v ≡ false
      → IsOrderly r
      → (j : ℕ) × At json tokens n (suc j) ((primitive, r.active) ∷ rest)
        × (read_market floats json tokens n i
            ≡ ok
                (suc j, if is_zero (int_of_text r.active) then none else some (market_of floats r)))
  read_market-row i v r rest at nv o =
      let (a, ea, at_a) =
        json_get_string_value-gap json tokens n i (codes "MarketCurrency") none (v ∷ r.gap_currency)
          _ r.currency at (rw (nv, o.currency_first)) in
      let (b, eb, at_b) =
        json_get_string_value-gap json tokens n (suc a) (codes "BaseCurrency") none
          ((string, r.currency) ∷ r.gap_base) _ r.base at_a o.base_first in
      let (c, ec, at_c) =
        json_get_double_value-gap json tokens n (suc b) (codes "MinTradeSize") floats
          (zero_double floats) ((string, r.base) ∷ r.gap_size) _ r.size at_b o.size_first in
      let (d, ed, at_d) =
        json_get_string_value-gap json tokens n (suc c) (codes "MarketName") none
          ((primitive, r.size) ∷ r.gap_name) _ r.name at_c o.name_first in
      let (e, ee, at_e) =
        json_get_int_value-gap json tokens n (suc d) (codes "IsActive") (pos 0)
          ((string, r.name) ∷ r.gap_active) _ r.active at_d o.active_first in
      (
        e,
        at_e,
        read_market-found i a b c d e r.base r.currency r.size r.name (int_of_text r.active) ea eb
            ec ed ee,
      )

  read_market-end :
      (i : ℕ) (vs : List View)
      → At json tokens n i vs
      → lacks (codes "MarketCurrency") vs ≡ true
      → read_market floats json tokens n i ≡ ok (0, none)
  unfolding read_market
  read_market-end i vs at l =
      rw (json_get_string_value-none json tokens n i (codes "MarketCurrency") none vs at l)

  -- One round of the loop, and the last test.
  loop_round :
      (fuel i next : ℕ) (acc : List (Market D)) (current : Option (Market D))
      → read_market floats json tokens n (suc i) ≡ ok (next, current)
      → markets_loop floats json tokens n (suc fuel) (suc i) acc
        ≡ markets_loop floats json tokens n fuel next (appended acc current)
  unfolding markets_loop
  loop_round fuel i next acc current e = rw e (ground arith)

  loop_end :
      (fuel : ℕ) (acc : List (Market D))
      → markets_loop floats json tokens n (suc fuel) 0 acc ≡ ok acc
  unfolding markets_loop
  loop_end fuel acc = refl

  appended-listed :
      (acc : List (Market D)) (r : Row) (rows : List Row)
      → appended acc (if is_zero (int_of_text r.active) then none else some (market_of floats r))
          ++ listed floats rows
        ≡ acc ++ listed floats (r ∷ rows)
  appended-listed acc r rows = elim (Bool-cases (is_zero (int_of_text r.active))) [
    | inl z ↦ rw z
    | inr z ↦ rw z (append_assoc acc (market_of floats r ∷ []) (listed floats rows))
  ]

  markets_loop-rows :
      (rows : List Row) (fuel i : ℕ) (v : View) (tail : List View) (acc : List (Market D))
      → At json tokens n (suc i) (v ∷ rows_views rows tail)
      → view_is (codes "MarketCurrency") v ≡ false
      → AllOrderly rows
      → lacks (codes "MarketCurrency") tail ≡ true
      → length rows + 1 < fuel
      → markets_loop floats json tokens n fuel (suc i) acc ≡ ok (acc ++ listed floats rows)
  markets_loop-rows [] zero i v tail acc at nv o l h = absurd (omega arith)
  markets_loop-rows [] (suc zero) i v tail acc at nv o l h = absurd (omega arith)
  markets_loop-rows [] (suc (suc fuel)) i v tail acc at nv o l h =
      loop_round (suc fuel) i 0 acc none (read_market-end (suc i) (v ∷ tail) at (rw (nv, l)))
      ∙ loop_end fuel acc
      ∙ rw append-nil
  markets_loop-rows (r ∷ rows) zero i v tail acc at nv o l h = absurd (omega arith)
  markets_loop-rows (r ∷ rows) (suc fuel) i v tail acc at nv (o, os) l h =
      let (j, at', e) = read_market-row (suc i) v r (rows_views rows tail) at nv o in
      loop_round fuel i (suc j) acc _ e
      ∙ markets_loop-rows rows fuel j (primitive, r.active) tail _ at' refl os l (omega arith)
      ∙ ap ok (appended-listed acc r rows)

from_start-listed :
    {D : Type 0} (floats : Floats D) (json : Bytes) (tokens : List Token) (n k : ℕ) (success : ℤ)
    (out : List (Market D))
    → json_get_int_value json tokens n 0 (codes "success") (pos 0) ≡ ok (suc k, success)
    → is_zero success ≡ false
    → markets_loop floats json tokens n (n + 2) (suc k) [] ≡ ok out
    → markets_from_start floats json tokens n ≡ ok out
unfolding markets_from_start
from_start-listed floats json tokens n k success out e s looped = rw (e, s) (ground (arith, looped))

module _ {D : Type 0} (floats : Floats D) (jsmn : Tokenizer) (json : Bytes) (tokens : List Token)
    (n : ℕ) (parsed : jsmn json 65535 ≡ (pos n, tokens)) where
  -- An answer whose "success" holds and that lists markets in order, whatever else stands between
  -- their keys and behind them, gives exactly the active markets, in order, with their names, sizes
  -- and the fee 0.7. (No key may be anticipated by a string in front of its place, and no further
  -- "MarketCurrency" follows.)
  pub book_bittrex_parse_market-rows :
      (gap : List View) (success : Bytes) (rows : List Row) (tail : List View)
      → At json tokens n 0 (listing_views gap success rows tail)
      → lacks (codes "success") gap ≡ true
      → is_zero (int_of_text success) ≡ false
      → AllOrderly rows
      → lacks (codes "MarketCurrency") tail ≡ true
      → book_bittrex_parse_market floats jsmn (some json) ≡ ok (listed floats rows)
  unfolding book_bittrex_parse_market
  book_bittrex_parse_market-rows gap success rows tail at l s o lt =
      let (k, e, at') =
        json_get_int_value-gap json tokens n 0 (codes "success") (pos 0) gap _ success at l in
      let looped =
        markets_loop-rows floats json tokens n rows (n + 2) k (primitive, success) tail [] at' refl
          o lt (omega (arith, at'.count, length-rows_views rows tail)) in
      rw parsed (from_start-listed floats json tokens n k (int_of_text success) _ e s looped)
