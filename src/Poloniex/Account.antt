-- ===== src/Poloniex/Account.antt =====
-- The calls of book/poloniex.c over HTTP.
use ken_code_de_bridge.Base.{
  Bytes, Floats, List, Option, Outcome, [], codes, deref, length, ok, pos, snprintf, some, zero, ℤ,
  ◌++◌, ◌+◌, ◌>>=◌,
}
use ken_code_de_bridge.Book.{Balance, Book, Market}
use ken_code_de_bridge.Json.{Tokenizer}
use ken_code_de_bridge.Https.{
  Curl, utils_https_add_header, utils_https_add_post_parameter, utils_https_get, utils_https_new,
  utils_https_post, utils_https_sign,
}
use ken_code_de_bridge.Poloniex.{poloniex_parse_balance, poloniex_parse_book, poloniex_parse_market}

abbrev poloniex_url : Bytes
poloniex_url = codes "https://poloniex.com/"

abbrev poloniex_apikey : Bytes
poloniex_apikey = codes "TFNUBJYV-84RXQBXI-3PONC8MW-3ATNRJ9B"

abbrev poloniex_apisecret : Bytes
poloniex_apisecret =
    codes
      "0ce4c944bce4afa24b9e68166699002b9f780ec4b0b23a6b30b5dc273dd28817bf31c15b4880c89d2de0669f0c7224925fc61ae5e98e59e23fd3e21751c5bf27"

unfoldable pub poloniex_build_url : Bytes → Bytes
poloniex_build_url method =
    snprintf (length poloniex_url + length method + 1) (poloniex_url ++ method)

module _ {D : Type 0} (floats : Floats D) (jsmn : Tokenizer) (curl : Curl) where
  abbrev book_method : Bytes → Bytes
  book_method name =
      snprintf (length name + 60)
        (codes "public?command=returnOrderBook&currencyPair=" ++ name ++ codes "&depth=10")

  unfoldable pub poloniex_get_books : Market D → Outcome (List (Book D))
  unfolding poloniex_build_url utils_https_get poloniex_parse_book
  poloniex_get_books market = do
    name ← deref market.market_name
    results ← deref (utils_https_get curl utils_https_new (poloniex_build_url (book_method name))).1
    poloniex_parse_book floats jsmn results

  on_success : ℤ × Option Bytes → Outcome (List (Market D))
  unfolding poloniex_parse_market
  on_success (pos zero, json) = deref json >>= poloniex_parse_market floats jsmn
  on_success (_, json) = ok []

  unfoldable pub poloniex_get_markets : Outcome (List (Market D))
  unfolding on_success poloniex_build_url utils_https_get
  poloniex_get_markets = on_success (
      utils_https_get curl utils_https_new
        (poloniex_build_url (codes "public?command=returnTicker")))

  unfoldable pub poloniex_balance :
      (Bytes → Bytes → Option Bytes) → Bytes → Bytes → Outcome (Option (Balance D))
  unfolding utils_https_add_post_parameter utils_https_add_header utils_https_sign utils_https_post
      poloniex_parse_balance
  poloniex_balance hmac nonce currency =
      let url =
        snprintf (length poloniex_url + length (codes "tradingApi") + 1)
          (poloniex_url ++ codes "tradingApi") in
      let commanded =
        utils_https_add_post_parameter utils_https_new (codes "command")
          (codes "returnCompleteBalances") in
      let http = utils_https_add_post_parameter commanded (codes "nonce") nonce in
      let keyed = utils_https_add_header http (codes "Key") (some poloniex_apikey) in
      do
        post_parameters ← deref http.post_parameters
        let signed_params = utils_https_sign hmac poloniex_apisecret post_parameters
        let connection = utils_https_add_header keyed (codes "Sign") signed_params
        json ← deref (utils_https_post curl connection url).1
        poloniex_parse_balance floats jsmn json currency

-- Orders are not sent.
abbrev pub poloniex_limit_buy : {D : Type 0} → Market D → D → D → ℤ
poloniex_limit_buy _ _ _ = pos 0

abbrev pub poloniex_limit_sell : {D : Type 0} → Market D → D → D → ℤ
poloniex_limit_sell _ _ _ = pos 0

abbrev pub poloniex_market_buy : {D : Type 0} → Market D → D → ℤ
poloniex_market_buy _ _ = pos 0

abbrev pub poloniex_market_sell : {D : Type 0} → Market D → D → ℤ
poloniex_market_sell _ _ = pos 0
