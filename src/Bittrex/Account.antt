-- ===== src/Bittrex/Account.antt =====
-- The rest of book/bittrex.c: addresses, balances, and the calls over HTTP. An answer that is not
-- there, or that nothing has written, is read by the parsers all the same.

pub mod Balances
mod Tests
use ken_code_de_bridge.Base.{
  Bytes, Floats, List, Option, Outcome, codes, deref, equal, fault, if◌then◌else◌, length, negsuc,
  none, ok, pos, snprintf, some, ℕ, ℤ, ◌++◌, ◌+◌, ◌-◌, ◌>>=◌, ◌∷◌,
}
use ken_code_de_bridge.Book.{Balance, Book, Market, zero_double}
use ken_code_de_bridge.Json.{
  Token, Tokenizer, after_key, json_find_token, json_get_double, json_get_string, json_parse,
}
use ken_code_de_bridge.Https.{
  Curl, utils_https_add_header, utils_https_get, utils_https_new, utils_https_sign,
}
use ken_code_de_bridge.Bittrex.{book_bittrex_parse_book, book_bittrex_parse_market}

abbrev bittrex_url : Bytes
bittrex_url = codes "https://bittrex.com/api/v1.1/"

abbrev bittrex_apikey : Bytes
bittrex_apikey = codes "55bbbe56a47046ac858f26110b044b6d"

abbrev bittrex_apisecret : Bytes
bittrex_apisecret = codes "5d7773773d5c481f9ec1afa67227a7b4"

abbrev public_text : Bytes → Bytes → Bytes
public_text group method = bittrex_url ++ group ++ b'/' ∷ method

abbrev private_text : Bytes → Bytes → Bytes → Bytes
private_text group method nonce =
    public_text group method ++ codes "?apikey=" ++ bittrex_apikey ++ codes "&nonce=" ++ nonce

abbrev url_room : Bytes → Bytes → ℕ
url_room group method =
    length bittrex_url + length group + length method + length bittrex_apikey + 20

-- Only public methods do without a nonce.
unfoldable pub bittrex_build_url : Bytes → Bytes → Option Bytes → Outcome Bytes
unfolding equal
bittrex_build_url group method none =
    if equal group (codes "public")
    then ok (snprintf (url_room group method) (public_text group method))
    else fault
bittrex_build_url group method (some nonce) =
    let len = url_room group method + length nonce in
    if equal group (codes "public")
    then ok (snprintf len (public_text group method))
    else ok (snprintf len (private_text group method nonce))

module _ {D : Type 0} (floats : Floats D) (json : Bytes) (tokens : List Token)
    (num_tokens : ℕ) where
  -- The value behind the next key, as a number.
  double_after : ℕ → Bytes → (ℕ → D → Outcome (Option (Balance D))) → Outcome (Option (Balance D))
  double_after token_position key next = do
    at ← json_find_token json tokens num_tokens token_position key
    after_key tokens at λ i t. json_get_double floats json t (zero_double floats) >>= next i

  unfoldable pub balance_of_tokens : Outcome (Option (Balance D))
  unfolding double_after
  balance_of_tokens = do
    at ← json_find_token json tokens num_tokens 0 (codes "Currency")
    after_key tokens at λ i t. json_get_string json t none >>= λ currency.
        double_after i (codes "Balance") λ j balance.
          double_after j (codes "Available") λ k available.
            double_after k (codes "Pending") λ l pending. ok (
              some (record {
                currency = currency;
                balance = balance;
                pending = pending;
                available = available;
              }))

module _ {D : Type 0} (floats : Floats D) (jsmn : Tokenizer) where
  parsed_balance : Bytes → ℤ × List Token → Outcome (Option (Balance D))
  parsed_balance json (negsuc _, tokens) = ok none
  parsed_balance json (pos num_tokens, tokens) = balance_of_tokens floats json tokens num_tokens

  unfoldable pub bittrex_parse_balance : Bytes → Outcome (Option (Balance D))
  unfolding parsed_balance json_parse
  bittrex_parse_balance json = parsed_balance json (json_parse jsmn json 1000)

  module _ (curl : Curl) where
    abbrev book_method : Bytes → Bytes → Bytes
    book_method base quoted =
        codes "getorderbook?market=" ++ base ++ b'-' ∷ quoted ++ codes "&type=both&depth=50"

    unfoldable pub bittrex_get_books : Market D → Outcome (List (Book D))
    unfolding bittrex_build_url utils_https_get book_bittrex_parse_book
    bittrex_get_books market = do
      base ← deref market.base_currency
      quoted ← deref market.market_currency
      url ← bittrex_build_url (codes "public") (snprintf 50 (book_method base quoted)) none
      results ← deref (utils_https_get curl utils_https_new url).1
      book_bittrex_parse_book floats jsmn (some results)

    unfoldable pub bittrex_get_markets : Outcome (List (Market D))
    unfolding bittrex_build_url utils_https_get book_bittrex_parse_market
    bittrex_get_markets = do
      url ← bittrex_build_url (codes "public") (codes "getmarkets") none
      results ← deref (utils_https_get curl utils_https_new url).1
      book_bittrex_parse_market floats jsmn (some results)

    abbrev balance_text : Bytes → Bytes → Bytes
    balance_text nonce currency =
        bittrex_url
        ++ codes "account/getbalance?apikey="
        ++ bittrex_apikey
        ++ codes "&nonce="
        ++ nonce
        ++ codes "&currency="
        ++ currency

    abbrev balance_template : Bytes
    balance_template = codes "%saccount/getbalance?apikey=%s&nonce=%s&currency=%s"

    unfoldable pub bittrex_balance :
        (Bytes → Bytes → Option Bytes) → Bytes → Bytes → Outcome (Option (Balance D))
    unfolding utils_https_sign utils_https_add_header utils_https_get bittrex_parse_balance
    bittrex_balance hmac nonce currency =
        let url_len =
          length bittrex_url
          + length balance_template
          + length bittrex_apikey
          + length currency
          + length nonce
          - 2 in
        let url = snprintf url_len (balance_text nonce currency) in
        let signature = utils_https_sign hmac bittrex_apisecret url in
        let connection = utils_https_add_header utils_https_new (codes "apisign") signature in
        deref (utils_https_get curl connection url).1 >>= bittrex_parse_balance

-- Orders are not sent.
abbrev pub bittrex_limit_buy : {D : Type 0} → Market D → D → D → ℤ
bittrex_limit_buy _ _ _ = pos 0

abbrev pub bittrex_limit_sell : {D : Type 0} → Market D → D → D → ℤ
bittrex_limit_sell _ _ _ = pos 0

abbrev pub bittrex_market_buy : {D : Type 0} → Market D → D → ℤ
bittrex_market_buy _ _ = pos 0

abbrev pub bittrex_market_sell : {D : Type 0} → Market D → D → ℤ
bittrex_market_sell _ _ = pos 0
