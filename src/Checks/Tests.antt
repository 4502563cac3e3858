-- ===== src/Checks/Tests.antt =====
-- The repository's tests on answers of bittrex.com, and their runner.
use mathlib.Core.Path.{refl, ◌≡◌}
use ken_code_de_bridge.Base.{
  List, [], codes, equal, false, if◌then◌else◌, length, none, ok, pos, some, true, ℕ, ◌==◌, ◌∷◌,
}
use ken_code_de_bridge.Fixtures.{clip, micro}
use ken_code_de_bridge.Json.{Tokenizer, double_of_text, int_of_text, object}
use ken_code_de_bridge.Https.{Curl}
use ken_code_de_bridge.Bittrex.Sample.{
  book-At, book_json, book_tokens, doge_IsOrderly, doge_row, first_ask, first_bid, ltc_IsOrderly,
  ltc_market, ltc_row, markets-At, markets_json, markets_tokens, second_bid,
}
use ken_code_de_bridge.Vendors.Calls.{Outside, books_get, markets_get}
use ken_code_de_bridge.Book.{mock_get_books, mock_get_markets}
use ken_code_de_bridge.Bittrex.Account.{bittrex_build_url}
use ken_code_de_bridge.Vendors.Table.{vendor_get}
use ken_code_de_bridge.Checks.{
  first_book, is_level, mock_bid, test_book_bittrex, test_book_bittrex_url, test_book_mock,
  with_book, with_markets,
}
use ken_code_de_bridge.Checks.Bittrex.{Gets, HasBook, ListsMarkets, book_url, markets_url}
use ken_code_de_bridge.Checks.Verdict.{test_book_bittrex-verdict}
use ken_code_de_bridge.Checks.Runner.{
  Test, argument, is_wanted, main, passed, run_tests, test_wanted,
}

-- Both answers come in one piece.
abbrev exchange_answers : Curl
exchange_answers = record {
  perform =
      λ request. some ((if equal request.url markets_url then markets_json else book_json) ∷ []);
  escape = λ text. text;
}

abbrev both_texts : Tokenizer
both_texts json max =
    if equal json markets_json
    then (pos (length markets_tokens), markets_tokens)
    else (pos (length book_tokens), book_tokens)

abbrev at_bittrex : Outside ℕ
at_bittrex = record {
  floats = micro;
  jsmn = both_texts;
  curl = exchange_answers;
  hmac = λ key message. none;
  md5 = λ text. text;
  nonce = [];
}

markets_come : Gets exchange_answers markets_url markets_json
unfolding equal
markets_come = record { pieces = markets_json ∷ []; performed = refl; joined = refl }

book_comes : Gets exchange_answers book_url book_json
unfolding equal
book_comes = record { pieces = book_json ∷ []; performed = refl; joined = refl }

markets_there : ListsMarkets both_texts markets_json (ltc_row ∷ doge_row ∷ [])
unfolding equal int_of_text
markets_there = record {
  tokens = markets_tokens;
  n = 27;
  parsed = refl;
  gap = clip markets_json object 0 234 ∷ [];
  success = codes "true";
  tail = [];
  laid_out = markets-At;
  success_first = refl;
  succeeds = refl;
  orderly = (ltc_IsOrderly, (doge_IsOrderly, tt));
  no_more = refl;
}

book_there : HasBook both_texts book_json (first_bid ∷ second_bid ∷ []) (first_ask ∷ [])
unfolding equal int_of_text
book_there = record {
  tokens = book_tokens;
  n = 24;
  parsed = refl;
  gap = clip book_json object 0 117 ∷ [];
  success = codes "true";
  behind_bids = [];
  tail = [];
  laid_out = book-At;
  success_first = refl;
  succeeds = refl;
  bids_in_order = (refl, refl, (refl, refl, tt));
  no_bid_behind = refl;
  sell_behind = refl;
  asks_in_order = (refl, refl, tt);
  no_more = refl;
}

-- The second level has no ask, so that the test fails.
test_book_bittrex-verdict_example : test_book_bittrex (λ x. x == 0) at_bittrex ≡ ok false
unfolding equal int_of_text double_of_text is_level
test_book_bittrex-verdict_example =
    test_book_bittrex-verdict (λ x. x == 0) at_bittrex markets_json book_json
      (ltc_row ∷ doge_row ∷ []) (first_bid ∷ second_bid ∷ []) (first_ask ∷ []) [] ltc_market []
      markets_come markets_there book_comes book_there refl (refl, refl)

-- One of two tests is named.
abbrev two_tests : List Test
two_tests =
    record { name = codes "test_connect"; result = ok true }
    ∷ record { name = codes "test_book_all"; result = ok false }
    ∷ []

quoted_name : main two_tests (codes "'test_connect'" ∷ []) ≡ ok (passed 1, 1)
unfolding main run_tests is_wanted argument test_wanted equal
quoted_name = refl

mock_passes : test_book_mock (λ x. x == 0) at_bittrex ≡ ok true
unfolding test_book_mock first_book mock_bid with_markets with_book vendor_get markets_get books_get
    mock_get_markets mock_get_books equal
mock_passes = refl

url_passes : test_book_bittrex_url ≡ ok true
unfolding test_book_bittrex_url bittrex_build_url equal
url_passes = refl
