-- ===== src/Bittrex/Account/Tests.antt =====
-- A balance of bittrex.com.
use mathlib.Core.Path.{refl, ◌≡◌}
use ken_code_de_bridge.Base.{Bytes, List, [], atoi, codes, equal, ok, some, ◌∷◌}
use ken_code_de_bridge.Fixtures.{clip, gives, micro, token}
use ken_code_de_bridge.Json.{Token, double_of_text, object, primitive, string, token_text}
use ken_code_de_bridge.Json.Views.{At}
use ken_code_de_bridge.Json.Check.{At-checked}
use ken_code_de_bridge.Bittrex.Account.{bittrex_parse_balance}
use ken_code_de_bridge.Bittrex.Account.Balances.{Field, bittrex_parse_balance-fields, field_views}

abbrev balance_json : Bytes
balance_json =
    codes
      "{\"success\":true,\"result\":{\"Currency\":\"BTC\",\"Balance\":14,\"Available\":12,\"Pending\":2}}"

abbrev balance_tokens : List Token
balance_tokens =
    token object 0 84
    ∷ token string 2 9
    ∷ token primitive 11 15
    ∷ token string 17 23
    ∷ token object 25 83
    ∷ token string 27 35
    ∷ token string 38 41
    ∷ token string 44 51
    ∷ token primitive 53 55
    ∷ token string 57 66
    ∷ token primitive 68 70
    ∷ token string 72 79
    ∷ token primitive 81 82
    ∷ []

abbrev currency : Field
currency = record {
  gap =
      clip balance_json object 0 84
      ∷ clip balance_json string 2 9
      ∷ clip balance_json primitive 11 15
      ∷ clip balance_json string 17 23
      ∷ clip balance_json object 25 83
      ∷ [];
  value = clip balance_json string 38 41;
}

abbrev balance_field : Field
balance_field = record { gap = []; value = clip balance_json primitive 53 55 }

abbrev available_field : Field
available_field = record { gap = []; value = clip balance_json primitive 68 70 }

abbrev pending_field : Field
pending_field = record { gap = []; value = clip balance_json primitive 81 82 }

fields-At : At balance_json balance_tokens 13 0 (
    field_views (codes "Currency") currency (
      field_views (codes "Balance") balance_field (
        field_views
          (codes "Available")
          available_field
          (field_views (codes "Pending") pending_field []))))
unfolding token_text equal
fields-At = At-checked balance_json balance_tokens _ refl

bittrex_parse_balance-fields_example :
    bittrex_parse_balance micro (gives balance_tokens) balance_json
    ≡ ok (
        some (record {
          currency = some (codes "BTC");
          balance = 14000000;
          pending = 2000000;
          available = 12000000;
        }))
unfolding equal double_of_text atoi
bittrex_parse_balance-fields_example =
    bittrex_parse_balance-fields micro balance_json balance_tokens 13 (gives balance_tokens)
      currency balance_field available_field pending_field [] refl fields-At refl refl refl refl
