-- ===== src/Btc38/Ends.antt =====
-- `btc38_parse_book` ends on any tokens.
use ken_code_de_bridge.Base.{
  Bool-cases, Bytes, Ensures-bind, Floats, List, [], arith, false, inl, inr, ltb, negsuc, pos, refl,
  suc, zero, ℕ, ℤ, ◌+◌, ◌<◌, ◌==◌, ◌≡◌, ◌≤◌, ◌⊎◌,
}
use ken_code_de_bridge.Book.{Cursor, set_bid}
use ken_code_de_bridge.Json.{Token, Tokenizer}
use ken_code_de_bridge.Json.Progress.{Ends, Found, json_find_token-Found}
use ken_code_de_bridge.Levels.{or_all, three_behind}
use ken_code_de_bridge.Levels.Ends.{Ends-bind, first_loop-Ends, or_all-AtMost, read_number-Ends}
use ken_code_de_bridge.Btc38.{asks_loop, book_of_tokens, btc38_parse_book, parsed_book}

module _ {D : Type 0} (floats : Floats D) (json : Bytes) (tokens : List Token) (n : ℕ) where
  asks_loop-Ends :
      (fuel i : ℕ) (c : Cursor D)
      → ((i ≡ 0) × (0 < fuel)) ⊎ ((1 < fuel) × (n + 2 ≤ fuel + i))
      → Ends (asks_loop floats json tokens n fuel i c)
  unfolding asks_loop
  asks_loop-Ends zero i c enough = absurd (omega (arith, enough))
  asks_loop-Ends (suc fuel) zero c enough = tt
  asks_loop-Ends (suc fuel) (suc i) c enough =
      let test : (suc i == 0) ≡ false = ground arith in
      rw test (
        Ends-bind _ _ (read_number-Ends floats json tokens (suc i)) λ quantity.
          Ends-bind _ _ (read_number-Ends floats json tokens (suc i + 1)) λ rate.
            elim (Bool-cases (ltb n (suc i + 3))) [
              | inl past ↦ rw past (asks_loop-Ends fuel 0 c (inl (refl, ground (arith, enough))))
              | inr inside ↦ rw inside (
                  asks_loop-Ends fuel (suc i + 3) _
                    (inr (ground (arith, enough, inside), ground (arith, enough))))
            ])

  three_behind-room : (r : ℤ) → 2 ≤ three_behind r
  three_behind-room (pos i) = omega arith
  three_behind-room (negsuc i) = omega arith

  of_tokens-Ends : Ends (book_of_tokens floats json tokens n)
  unfolding book_of_tokens
  of_tokens-Ends =
      Ensures-bind (Found 0 n) (λ _. Unit) _ _ (json_find_token-Found json tokens n 0 _)
        λ found h.
          Ensures-bind (Found 0 n) (λ _. Unit) _ _ (json_find_token-Found json tokens n 0 _)
            λ bids_at _.
              Ends-bind _ _
                (first_loop-Ends floats json tokens set_bid n (n + 2) (three_behind bids_at) _ []
                  (or_all-AtMost n found h) (inr (omega arith, omega arith)))
                λ book.
                  asks_loop-Ends (n + 2) (three_behind (or_all n found)) _
                    (inr (omega arith, omega arith))

-- Whatever the tokenizer makes of an answer, the loops of `btc38_parse_book` end with the fuel given.
pub btc38_parse_book-Ends :
    {D : Type 0} (floats : Floats D) (jsmn : Tokenizer) (json : Bytes)
    → Ends (btc38_parse_book floats jsmn json)
unfolding btc38_parse_book
btc38_parse_book-Ends {D = D} floats jsmn json = go (jsmn json 65535)
  where
    go : (r : ℤ × List Token) → Ends (parsed_book floats jsmn json r)
    go (negsuc m, tokens) = tt
    go (pos n, tokens) = of_tokens-Ends floats json tokens n
