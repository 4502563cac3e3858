-- ===== src/Poloniex/Ends.antt =====
-- `poloniex_parse_book` ends on any tokens.
use ken_code_de_bridge.Base.{
  Bool-cases, Bytes, Ensures-bind, Ensures-if, Floats, List, [], arith, false, inl, inr, leb, ltb,
  negsuc, pos, refl, suc, zero, ℕ, ℤ, ◌+◌, ◌<◌, ◌==◌, ◌≡◌, ◌≤◌, ◌⊎◌,
}
use ken_code_de_bridge.Book.{Cursor, set_ask}
use ken_code_de_bridge.Json.{Token, Tokenizer}
use ken_code_de_bridge.Json.Progress.{Ends, Found, json_find_token-Found}
use ken_code_de_bridge.Levels.{or_all, three_behind}
use ken_code_de_bridge.Levels.Ends.{Ends-bind, first_loop-Ends, read_number-Ends}
use ken_code_de_bridge.Poloniex.{
  bids_loop, book_from_bids, book_of_tokens, parsed_book, poloniex_parse_book,
}

module _ {D : Type 0} (floats : Floats D) (json : Bytes) (tokens : List Token) (n : ℕ) where
  bids_loop-Ends :
      (fuel i : ℕ) (c : Cursor D)
      → ((i ≡ 0) × (0 < fuel)) ⊎ ((1 < fuel) × (n + 2 ≤ fuel + i))
      → Ends (bids_loop floats json tokens n fuel i c)
  unfolding bids_loop
  bids_loop-Ends zero i c enough = absurd (omega (arith, enough))
  bids_loop-Ends (suc fuel) zero c enough = tt
  bids_loop-Ends (suc fuel) (suc i) c enough =
      let test : (suc i == 0) ≡ false = ground arith in
      elim (Bool-cases (ltb (suc i) n)) [
        | inr past ↦ rw (test, past) tt
        | inl below ↦
            rw (test, below)
              (Ends-bind _ _ (read_number-Ends floats json tokens (suc i)) λ quantity.
                Ensures-if (λ _. Unit) (leb n (suc i + 1)) _ _
                  (bids_loop-Ends fuel 0 c (inl (refl, ground (arith, enough))))
                  (Ends-bind _ _ (read_number-Ends floats json tokens (suc i + 1)) λ rate.
                    elim (Bool-cases (leb n (suc i + 3))) [
                      | inl past ↦
                          rw past (bids_loop-Ends fuel 0 c (inl (refl, ground (arith, enough))))
                      | inr inside ↦ rw inside (
                          bids_loop-Ends fuel (suc i + 3) _
                            (inr (ground (arith, enough, inside), ground (arith, enough))))
                    ]))
      ]

  from_bids-Ends :
      (sell_pos bid_pos : ℤ)
      → Found 0 n bid_pos
      → Ends (book_from_bids floats json tokens n sell_pos bid_pos)
  unfolding book_from_bids
  from_bids-Ends sell_pos (pos zero) h = tt
  from_bids-Ends sell_pos (pos (suc k)) h =
      Ends-bind _ _
        (first_loop-Ends floats json tokens set_ask n (n + 2) (three_behind sell_pos) _ []
          (omega (arith, h.1)) (inr (room sell_pos, omega arith)))
        λ book. bids_loop-Ends (n + 2) (suc k + 3) _ (inr (omega arith, omega arith))
    where
      room : (r : ℤ) → n + 1 < n + 2 + three_behind r
      room (pos i) = omega arith
      room (negsuc i) = omega arith
  from_bids-Ends sell_pos (negsuc k) h =
      Ends-bind _ _
        (first_loop-Ends floats json tokens set_ask n (n + 2) (three_behind sell_pos) _ [] tt
          (inr (room sell_pos, omega arith)))
        λ book. bids_loop-Ends (n + 2) 2 _ (inr (omega arith, omega arith))
    where
      room : (r : ℤ) → n + 1 < n + 2 + three_behind r
      room (pos i) = omega arith
      room (negsuc i) = omega arith

  of_tokens-Ends : Ends (book_of_tokens floats json tokens n)
  unfolding book_of_tokens
  of_tokens-Ends =
      Ensures-bind (Found 0 n) (λ _. Unit) _ _ (json_find_token-Found json tokens n 0 _)
        λ found h.
          Ensures-bind (Found 0 n) (λ _. Unit) _ _ (json_find_token-Found json tokens n 0 _)
            λ bid_pos h'. from_bids-Ends (or_all n found) bid_pos h'

-- Whatever the tokenizer makes of an answer, the loops of `poloniex_parse_book` end with the fuel given.
pub poloniex_parse_book-Ends :
    {D : Type 0} (floats : Floats D) (jsmn : Tokenizer) (json : Bytes)
    → Ends (poloniex_parse_book floats jsmn json)
unfolding poloniex_parse_book
poloniex_parse_book-Ends {D = D} floats jsmn json = go (jsmn json 65535)
  where
    go : (r : ℤ × List Token) → Ends (parsed_book floats jsmn json r)
    go (negsuc m, tokens) = tt
    go (pos n, tokens) = of_tokens-Ends floats json tokens n
