-- ===== src/Bittrex/Books/Tests.antt =====
-- `book_bittrex_parse_book` on answers of the service, and the theorems at them.
use mathlib.Core.Path.{refl, ◌≡◌}
use ken_code_de_bridge.Bittrex.Sample.{
  book-At, book_json, book_tokens, first_ask, first_bid, second_bid,
}
use ken_code_de_bridge.Base.{Bytes, List, [], codes, equal, fault, ok, some, ℕ, ◌∷◌}
use ken_code_de_bridge.Fixtures.{clip, gives, micro, token}
use ken_code_de_bridge.Book.{Book}
use ken_code_de_bridge.Json.{
  Token, double_of_text, int_of_text, object, primitive, string, token_text,
}
use ken_code_de_bridge.Json.Views.{At}
use ken_code_de_bridge.Json.Check.{At-checked}
use ken_code_de_bridge.Bittrex.{book_bittrex_parse_book}
use ken_code_de_bridge.Bittrex.Missing.{book_bittrex_parse_book-fault}
use ken_code_de_bridge.Bittrex.Books.Bids.{book_bittrex_parse_book-merged}

abbrev two_levels : List (Book ℕ)
two_levels =
    record { bid_qty = 12000000; bid_price = 3000000; ask_qty = 7000000; ask_price = 4000000 }
    ∷ record { bid_qty = 5000000; bid_price = 2000000; ask_qty = 0; ask_price = 0 }
    ∷ []

book_bittrex_parse_book-merged_example :
    book_bittrex_parse_book micro (gives book_tokens) (some book_json) ≡ ok two_levels
unfolding equal int_of_text double_of_text
book_bittrex_parse_book-merged_example =
    book_bittrex_parse_book-merged micro (gives book_tokens) book_json book_tokens 24 refl
      (clip book_json object 0 117 ∷ []) (codes "true") (first_bid ∷ second_bid ∷ []) []
      (first_ask ∷ []) [] book-At refl refl (refl, refl, (refl, refl, tt)) refl refl
      (refl, refl, tt) refl

abbrev short_json : Bytes
short_json = codes "{\"success\":true,\"result\":{\"buy\":null}}"

abbrev short_tokens : List Token
short_tokens =
    token object 0 38
    ∷ token string 2 9
    ∷ token primitive 11 15
    ∷ token string 17 23
    ∷ token object 25 37
    ∷ token string 27 30
    ∷ token primitive 32 36
    ∷ []

short-At : At short_json short_tokens 7 0 (
    clip short_json object 0 38
    ∷ (string, codes "success")
    ∷ (primitive, codes "true")
    ∷ clip short_json string 17 23
    ∷ clip short_json object 25 37
    ∷ clip short_json string 27 30
    ∷ clip short_json primitive 32 36
    ∷ [])
unfolding token_text equal
short-At = At-checked short_json short_tokens _ refl

book_bittrex_parse_book-fault_example :
    book_bittrex_parse_book micro (gives short_tokens) (some short_json) ≡ fault
unfolding equal int_of_text
book_bittrex_parse_book-fault_example =
    book_bittrex_parse_book-fault micro short_json short_tokens 7 (gives short_tokens)
      (clip short_json object 0 38 ∷ []) (codes "true")
      (clip short_json string 17 23
        ∷ clip short_json object 25 37
        ∷ clip short_json string 27 30
        ∷ clip short_json primitive 32 36
        ∷ [])
      refl short-At refl refl refl
