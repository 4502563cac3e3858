-- ===== src/Poloniex/Tests.antt =====
-- `poloniex_parse_book` on an answer of the service, and the theorems at it.
mod Markets
use mathlib.Core.Path.{refl, ◌≡◌}
use ken_code_de_bridge.Base.{Bytes, List, [], atoi, codes, equal, ok, ℕ, ◌∷◌}
use ken_code_de_bridge.Fixtures.{clip, gives, micro, token}
use ken_code_de_bridge.Book.{Book}
use ken_code_de_bridge.Json.{Token, array, double_of_text, object, primitive, string, token_text}
use ken_code_de_bridge.Json.Views.{At}
use ken_code_de_bridge.Json.Check.{At-checked}
use ken_code_de_bridge.Levels.First.{Level}
use ken_code_de_bridge.Poloniex.{poloniex_parse_book}
use ken_code_de_bridge.Poloniex.Ends.{poloniex_parse_book-Ends}
use ken_code_de_bridge.Json.Progress.{Ends}
use ken_code_de_bridge.Poloniex.Books.{Ending, answer_views, poloniex_parse_book-merged}

abbrev book_json : Bytes
book_json = codes "{\"asks\":[[3,1],[2,5]],\"bids\":[[4,7],[5,8]],\"isFrozen\":\"0\",\"seq\":9}"

abbrev book_tokens : List Token
book_tokens =
    token object 0 66
    ∷ token string 2 6
    ∷ token array 8 21
    ∷ token array 9 14
    ∷ token primitive 10 11
    ∷ token primitive 12 13
    ∷ token array 15 20
    ∷ token primitive 16 17
    ∷ token primitive 18 19
    ∷ token string 23 27
    ∷ token array 29 42
    ∷ token array 30 35
    ∷ token primitive 31 32
    ∷ token primitive 33 34
    ∷ token array 36 41
    ∷ token primitive 37 38
    ∷ token primitive 39 40
    ∷ token string 44 52
    ∷ token string 55 56
    ∷ token string 59 62
    ∷ token primitive 64 65
    ∷ []

abbrev ask : Level
ask = record {
  bracket = clip book_json array 9 14;
  first = clip book_json primitive 10 11;
  second = clip book_json primitive 12 13;
}

abbrev last_ask : Level
last_ask = record {
  bracket = clip book_json array 15 20;
  first = clip book_json primitive 16 17;
  second = clip book_json primitive 18 19;
}

abbrev bid_one : Level
bid_one = record {
  bracket = clip book_json array 30 35;
  first = clip book_json primitive 31 32;
  second = clip book_json primitive 33 34;
}

abbrev bid_two : Level
bid_two = record {
  bracket = clip book_json array 36 41;
  first = clip book_json primitive 37 38;
  second = clip book_json primitive 39 40;
}

abbrev fields : Ending
fields = record {
  key = clip book_json string 44 52;
  value = clip book_json string 55 56;
  key' = clip book_json string 59 62;
  value' = clip book_json primitive 64 65;
}

book-At : At book_json book_tokens 21 0 (
    answer_views
      (clip book_json object 0 66)
      []
      (clip book_json array 8 21)
      (ask ∷ [])
      last_ask
      (clip book_json array 29 42)
      (bid_one ∷ bid_two ∷ [])
      fields)
unfolding token_text equal
book-At = At-checked book_json book_tokens _ refl

-- Of two asks and two bids, one ask and two bids are kept.
abbrev kept_levels : List (Book ℕ)
kept_levels =
    record { bid_qty = 4000000; bid_price = 7000000; ask_qty = 3000000; ask_price = 1000000 }
    ∷ record { bid_qty = 5000000; bid_price = 8000000; ask_qty = 0; ask_price = 0 }
    ∷ []

poloniex_parse_book-merged_example :
    poloniex_parse_book micro (gives book_tokens) book_json ≡ ok kept_levels
unfolding equal double_of_text atoi
poloniex_parse_book-merged_example =
    poloniex_parse_book-merged micro (gives book_tokens) book_json book_tokens 21 refl
      (clip book_json object 0 66) [] (clip book_json array 8 21) (ask ∷ []) last_ask
      (clip book_json array 29 42) (bid_one ∷ bid_two ∷ []) fields book-At refl refl

poloniex_parse_book-Ends_example : Ends (poloniex_parse_book micro (gives book_tokens) book_json)
poloniex_parse_book-Ends_example = poloniex_parse_book-Ends micro (gives book_tokens) book_json
