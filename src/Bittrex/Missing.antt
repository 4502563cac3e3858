-- ===== src/Bittrex/Missing.antt =====
-- `book_bittrex_parse_book` over an answer with no key "sell".
use ken_code_de_bridge.Base.{
  Bytes, Floats, List, [], arith, codes, false, fault, negsuc, ok, pos, some, suc, true, ℕ, ℤ, ◌++◌,
  ◌+◌, ◌==◌, ◌∷◌, ◌≡◌,
}
use ken_code_de_bridge.Book.{Book}
use ken_code_de_bridge.Json.{
  Token, Tokenizer, int_of_text, json_find_token, json_get_int_value, primitive, string,
}
use ken_code_de_bridge.Json.Views.{At, View, json_find_token-none, lacks}
use ken_code_de_bridge.Json.Seek.{json_get_int_value-gap}
use ken_code_de_bridge.Bittrex.{
  asks_from, bids_loop, book_bittrex_parse_book, book_from_start, is_zero,
}

module _ {D : Type 0} (floats : Floats D) (json : Bytes) (tokens : List Token) (n : ℕ) where
  no_bids :
      (fuel i : ℕ) (book : List (Book D))
      → bids_loop floats json tokens n (suc fuel) (suc i) (negsuc 0) book ≡ ok book
  unfolding bids_loop
  no_bids fuel i book = let test : (suc i == 0) ≡ false = ground arith in rw test

  from_start-fault :
      (k : ℕ) (success : ℤ)
      → json_get_int_value json tokens n 0 (codes "success") (pos 0) ≡ ok (suc k, success)
      → is_zero success ≡ false
      → json_find_token json tokens n (suc k) (codes "sell") ≡ ok (negsuc 0)
      → bids_loop floats json tokens n (n + 2) (suc k) (negsuc 0) [] ≡ ok []
      → book_from_start floats json tokens n ≡ fault
  unfolding book_from_start asks_from
  from_start-fault k success e nz found none_there =
      let test : (suc k == 0) ≡ false = ground arith in rw (e, test, nz, found, none_there)

  -- An answer whose "success" holds, and which has no key "sell" behind it, makes
  -- `book_bittrex_parse_book` read a token in front of the first.
  pub book_bittrex_parse_book-fault :
      (jsmn : Tokenizer) (gap : List View) (success : Bytes) (rest : List View)
      → jsmn json 65535 ≡ (pos n, tokens)
      → At json tokens n 0 (gap ++ (string, codes "success") ∷ (primitive, success) ∷ rest)
      → lacks (codes "success") gap ≡ true
      → is_zero (int_of_text success) ≡ false
      → lacks (codes "sell") rest ≡ true
      → book_bittrex_parse_book floats jsmn (some json) ≡ fault
  unfolding book_bittrex_parse_book
  book_bittrex_parse_book-fault jsmn gap success rest parsed at l nz ls =
      let (k, e, at') =
        json_get_int_value-gap json tokens n 0 (codes "success") (pos 0) gap rest success at l in
      let found =
        json_find_token-none json tokens n (suc k) (codes "sell") ((primitive, success) ∷ rest) at'
          ls in
      let fuel : n + 2 ≡ suc (n + 1) = omega arith in
      rw parsed
        (from_start-fault k (int_of_text success) e nz found (rw fuel (no_bids (n + 1) k [])))
