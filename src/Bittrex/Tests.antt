-- ===== src/Bittrex/Tests.antt =====
-- `book_bittrex_parse_market` on answers of the service, and the theorems at them.
use mathlib.Core.Path.{refl, ◌≡◌}
use ken_code_de_bridge.Bittrex.Sample.{
  doge_IsOrderly, doge_row, ltc_IsOrderly, ltc_market, ltc_row, markets-At, markets_json,
  markets_tokens,
}
use ken_code_de_bridge.Base.{Ensures, [], codes, equal, ok, some, ◌∷◌}
use ken_code_de_bridge.Fixtures.{clip, gives, micro}
use ken_code_de_bridge.Json.{double_of_text, int_of_text, object}
use ken_code_de_bridge.Bittrex.{book_bittrex_parse_market}
use ken_code_de_bridge.Bittrex.Total.{AllListed, book_bittrex_parse_market-AllListed}
use ken_code_de_bridge.Bittrex.Markets.{book_bittrex_parse_market-rows}

-- The inactive market is left out.
book_bittrex_parse_market-rows_example :
    book_bittrex_parse_market micro (gives markets_tokens) (some markets_json)
    ≡ ok (ltc_market ∷ [])
unfolding equal int_of_text double_of_text
book_bittrex_parse_market-rows_example =
    book_bittrex_parse_market-rows micro (gives markets_tokens) markets_json markets_tokens 27 refl
      (clip markets_json object 0 234 ∷ []) (codes "true") (ltc_row ∷ doge_row ∷ []) [] markets-At
      refl refl (ltc_IsOrderly, (doge_IsOrderly, tt)) refl

book_bittrex_parse_market-AllListed_example :
    Ensures
      (AllListed micro)
      (book_bittrex_parse_market micro (gives markets_tokens) (some markets_json))
book_bittrex_parse_market-AllListed_example =
    book_bittrex_parse_market-AllListed micro (gives markets_tokens) (some markets_json)
