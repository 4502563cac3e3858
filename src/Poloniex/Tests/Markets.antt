-- ===== src/Poloniex/Tests/Markets.antt =====
-- `poloniex_parse_market` on answers of the service, and the theorems at them.
use mathlib.Core.Path.{refl, ◌≡◌}
use ken_code_de_bridge.Base.{
  Bytes, List, [], codes, equal, ok, out_of_fuel, some, split_at, ◌++◌, ◌∷◌,
}
use ken_code_de_bridge.Fixtures.{clip, gives, micro, token}
use ken_code_de_bridge.Json.{Token, object, primitive, string, token_text}
use ken_code_de_bridge.Json.Views.{At}
use ken_code_de_bridge.Json.Check.{At-checked}
use ken_code_de_bridge.Tickers.Rows.{Row, before_key, rows_views}
use ken_code_de_bridge.Poloniex.{market_of, markets_loop, poloniex_parse_market}
use ken_code_de_bridge.Poloniex.Markets.{Pair, poloniex_parse_market-rows, rows_of}
use ken_code_de_bridge.Poloniex.Endless.{markets_loop-endless}

abbrev markets_json : Bytes
markets_json = codes "{\"BTC_LTC\":{\"id\":50,\"last\":2},\"BTC_ETH\":{\"id\":51}}"

abbrev markets_tokens : List Token
markets_tokens =
    token object 0 50
    ∷ token string 2 9
    ∷ token object 11 29
    ∷ token string 13 15
    ∷ token primitive 17 19
    ∷ token string 21 25
    ∷ token primitive 27 28
    ∷ token string 31 38
    ∷ token object 40 49
    ∷ token string 42 44
    ∷ token primitive 46 48
    ∷ []

abbrev ltc_row : Row
ltc_row = record { gap = []; name = codes "BTC_LTC"; bracket = clip markets_json object 11 29 }

abbrev eth_row : Row
eth_row = record {
  gap =
      clip markets_json primitive 17 19
      ∷ clip markets_json string 21 25
      ∷ clip markets_json primitive 27 28
      ∷ [];
  name = codes "BTC_ETH";
  bracket = clip markets_json object 40 49;
}

ltc_splits : split_at b'_' ltc_row.name ≡ some (codes "BTC", codes "LTC")
unfolding split_at
ltc_splits = refl

abbrev ltc_pair : Pair
ltc_pair = record { row = ltc_row; base = codes "BTC"; quoted = codes "LTC"; splits = ltc_splits }

eth_splits : split_at b'_' eth_row.name ≡ some (codes "BTC", codes "ETH")
unfolding split_at
eth_splits = refl

abbrev eth_pair : Pair
eth_pair = record { row = eth_row; base = codes "BTC"; quoted = codes "ETH"; splits = eth_splits }

markets-At : At markets_json markets_tokens 11 0 (
    (clip markets_json object 0 50
      ∷ rows_views
          (codes "id")
          (rows_of (ltc_pair ∷ eth_pair ∷ []))
          (clip markets_json primitive 46 48 ∷ [])))
unfolding token_text equal
markets-At = At-checked markets_json markets_tokens _ refl

poloniex_parse_market-rows_example :
    poloniex_parse_market micro (gives markets_tokens) markets_json
    ≡ ok (
        market_of micro (codes "BTC_LTC") (codes "BTC", codes "LTC")
        ∷ market_of micro (codes "BTC_ETH") (codes "BTC", codes "ETH")
        ∷ [])
unfolding equal
poloniex_parse_market-rows_example =
    poloniex_parse_market-rows micro (gives markets_tokens) markets_json markets_tokens 11
      (clip markets_json object 0 50) (ltc_pair ∷ eth_pair ∷ [])
      (clip markets_json primitive 46 48 ∷ []) refl markets-At (refl, (refl, tt)) refl

abbrev odd_json : Bytes
odd_json = codes "{\"BTC_LTC\":{\"id\":50,\"last\":2},\"BTCETH\":{\"id\":51}}"

abbrev odd_tokens : List Token
odd_tokens =
    token object 0 49
    ∷ token string 2 9
    ∷ token object 11 29
    ∷ token string 13 15
    ∷ token primitive 17 19
    ∷ token string 21 25
    ∷ token primitive 27 28
    ∷ token string 31 37
    ∷ token object 39 48
    ∷ token string 41 43
    ∷ token primitive 45 47
    ∷ []

abbrev first_row : Row
first_row = record { gap = []; name = codes "BTC_LTC"; bracket = clip odd_json object 11 29 }

abbrev odd_row : Row
odd_row = record {
  gap =
      clip odd_json primitive 17 19
      ∷ clip odd_json string 21 25
      ∷ clip odd_json primitive 27 28
      ∷ [];
  name = codes "BTCETH";
  bracket = clip odd_json object 39 48;
}

first_splits : split_at b'_' first_row.name ≡ some (codes "BTC", codes "LTC")
unfolding split_at
first_splits = refl

abbrev first_pair : Pair
first_pair = record {
  row = first_row;
  base = codes "BTC";
  quoted = codes "LTC";
  splits = first_splits;
}

odd-At : At odd_json odd_tokens 11 0 (
    clip odd_json object 0 49
    ∷ rows_views
        (codes "id")
        (rows_of (first_pair ∷ []))
        (before_key odd_row ++ (string, codes "id") ∷ clip odd_json primitive 45 47 ∷ []))
unfolding token_text equal
odd-At = At-checked odd_json odd_tokens _ refl

markets_loop-endless_example : markets_loop micro odd_json odd_tokens 11 1000000 1 [] ≡ out_of_fuel
unfolding equal split_at
markets_loop-endless_example =
    markets_loop-endless micro odd_json odd_tokens 11 1000000 (clip odd_json object 0 49)
      (first_pair ∷ []) odd_row (clip odd_json primitive 45 47 ∷ []) odd-At (refl, tt) refl refl
