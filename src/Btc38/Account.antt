-- ===== src/Btc38/Account.antt =====
-- The calls of book/btc38.c over HTTP.
use ken_code_de_bridge.Base.{
  Bytes, Floats, List, Option, Outcome, [], codes, deref, fault, length, ok, pos, snprintf, zero, ℤ,
  ◌++◌, ◌+◌, ◌>>=◌, ◌∷◌,
}
use ken_code_de_bridge.Book.{Balance, Book, Market}
use ken_code_de_bridge.Json.{Tokenizer}
use ken_code_de_bridge.Https.{
  Curl, utils_https_add_post_parameter, utils_https_bytes_to_hex_string, utils_https_get,
  utils_https_new, utils_https_post,
}
use ken_code_de_bridge.Btc38.{btc38_parse_balance, btc38_parse_book, btc38_parse_market}

abbrev btc38_url : Bytes
btc38_url = codes "http://api.btc38.com/v1/"

abbrev btc38_userid : Bytes
btc38_userid = codes "179172"

abbrev btc38_apikey : Bytes
btc38_apikey = codes "7133a888bd686cff84b2b6a934366d3f"

abbrev btc38_apisecret : Bytes
btc38_apisecret = codes "70af5f27d79f5ab07822375ae5dbd5e1b50d651766a2d32bf109e1470bdf0e4c"

unfoldable pub btc38_build_url : Bytes → Bytes
btc38_build_url method = snprintf (length btc38_url + length method + 20) (btc38_url ++ method)

-- The second list behind the last market of the first: with no market there, `last` is NULL.
abbrev pub merge_markets {ℓ} : {A : Type ℓ} → List A → List A → Outcome (List A)
merge_markets [] cny = fault
merge_markets (m ∷ btc) cny = ok (m ∷ btc ++ cny)

module _ {D : Type 0} (floats : Floats D) (jsmn : Tokenizer) (curl : Curl) where
  unfoldable pub btc38_get_books : Market D → Outcome (List (Book D))
  unfolding btc38_build_url utils_https_get btc38_parse_book
  btc38_get_books market = do
    name ← deref market.market_name
    let getorderbook = snprintf (length name + 10) (codes "depth.php" ++ name)
    results ← deref (utils_https_get curl utils_https_new (btc38_build_url getorderbook)).1
    btc38_parse_book floats jsmn results

  -- A call that succeeds hands its answer, the text that is read, to the parser.
  on_success :
      ℤ × Option Bytes
      → Outcome (List (Market D))
      → (Bytes → Outcome (List (Market D)))
      → Outcome (List (Market D))
  on_success (pos zero, json) failed next = deref json >>= next
  on_success (_, json) failed next = failed

  unfoldable pub btc38_get_markets : Outcome (List (Market D))
  unfolding on_success btc38_build_url utils_https_get btc38_parse_market
  btc38_get_markets =
      let btc =
        utils_https_get curl utils_https_new
          (btc38_build_url (codes "ticker.php?c=all&mk_type=btc")) in
      let cny =
        utils_https_get curl utils_https_new
          (btc38_build_url (codes "ticker.php?c=all&mk_type=cny")) in
      on_success btc (ok []) λ json. do
        btc_market ← btc38_parse_market floats jsmn json (codes "btc")
        on_success cny (ok btc_market) λ json'. do
          cny_market ← btc38_parse_market floats jsmn json' (codes "cny")
          merge_markets btc_market cny_market

  abbrev md5_input : Bytes → Bytes
  md5_input nonce =
      snprintf
        (length btc38_apikey + length btc38_userid + length btc38_apisecret + length nonce + 4)
        (btc38_apikey ++ b'_' ∷ btc38_userid ++ b'_' ∷ btc38_apisecret ++ b'_' ∷ nonce)

  -- `mbedtls_md5` is the parameter `md5`.
  unfoldable pub btc38_balance : (Bytes → Bytes) → Bytes → Bytes → Outcome (Option (Balance D))
  unfolding utils_https_add_post_parameter utils_https_bytes_to_hex_string utils_https_post
      btc38_parse_balance
  btc38_balance md5 nonce currency =
      let url_len = length btc38_url + length (codes "%sgetMyBalance.php") in
      let url = snprintf url_len (btc38_url ++ codes "getMyBalance.php") in
      let keyed = utils_https_add_post_parameter utils_https_new (codes "key") btc38_apikey in
      let timed = utils_https_add_post_parameter keyed (codes "time") nonce in
      let md5_encoded = utils_https_bytes_to_hex_string (md5 (md5_input nonce)) in
      let connection = utils_https_add_post_parameter timed (codes "md5") md5_encoded in
      deref (utils_https_post curl connection url).1 >>= btc38_parse_balance floats jsmn currency

-- Orders are not sent.
abbrev pub btc38_limit_buy : {D : Type 0} → Market D → D → D → ℤ
btc38_limit_buy _ _ _ = pos 0

abbrev pub btc38_limit_sell : {D : Type 0} → Market D → D → D → ℤ
btc38_limit_sell _ _ _ = pos 0

abbrev pub btc38_market_buy : {D : Type 0} → Market D → D → ℤ
btc38_market_buy _ _ = pos 0

abbrev pub btc38_market_sell : {D : Type 0} → Market D → D → ℤ
btc38_market_sell _ _ = pos 0
