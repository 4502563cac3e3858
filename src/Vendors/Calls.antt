-- ===== src/Vendors/Calls.antt =====
-- The calls through the pointers of a vendor (include/bridge/book.h). What the functions behind them
-- use of the outside, the hashes and the clock included, is a record.
use ken_code_de_bridge.Base.{Bytes, Floats, List, Option, Outcome, fault, none, ok, some}
use ken_code_de_bridge.Book.{Balance, Book, Market, mock_get_books, mock_get_markets}
use ken_code_de_bridge.Json.{Tokenizer}
use ken_code_de_bridge.Https.{Curl}
use ken_code_de_bridge.Vendors.Table.{Exchange, bittrex, btc38, mock, poloniex}
use ken_code_de_bridge.Bittrex.Account.{bittrex_balance, bittrex_get_books, bittrex_get_markets}
use ken_code_de_bridge.Btc38.Account.{btc38_balance, btc38_get_books, btc38_get_markets}
use ken_code_de_bridge.Poloniex.Account.{poloniex_balance, poloniex_get_books, poloniex_get_markets}

pub record Outside (D : Type 0) : Type 0 where
  pub floats : Floats D
  pub jsmn : Tokenizer
  pub curl : Curl
  pub hmac : Bytes → Bytes → Option Bytes
  pub md5 : Bytes → Bytes
  pub nonce : Bytes

module _ {D : Type 0} (outside : Outside D) where
  open outside use {floats, jsmn, curl, hmac, md5, nonce}

  unfoldable pub markets_get : Option Exchange → Outcome (List (Market D))
  unfolding mock_get_markets bittrex_get_markets btc38_get_markets poloniex_get_markets
  markets_get none = fault
  markets_get (some mock) = ok (mock_get_markets floats)
  markets_get (some bittrex) = bittrex_get_markets floats jsmn curl
  markets_get (some btc38) = btc38_get_markets floats jsmn curl
  markets_get (some poloniex) = poloniex_get_markets floats jsmn curl

  unfoldable pub books_get : Option Exchange → Market D → Outcome (List (Book D))
  unfolding mock_get_books bittrex_get_books btc38_get_books poloniex_get_books
  books_get none market = fault
  books_get (some mock) market = ok (mock_get_books floats market)
  books_get (some bittrex) market = bittrex_get_books floats jsmn curl market
  books_get (some btc38) market = btc38_get_books floats jsmn curl market
  books_get (some poloniex) market = poloniex_get_books floats jsmn curl market

  -- The mock vendor has no balances.
  unfoldable pub balance_of : Option Exchange → Bytes → Outcome (Option (Balance D))
  unfolding bittrex_balance btc38_balance poloniex_balance
  balance_of none currency = fault
  balance_of (some mock) currency = fault
  balance_of (some bittrex) currency = bittrex_balance floats jsmn curl hmac nonce currency
  balance_of (some btc38) currency = btc38_balance floats jsmn curl md5 nonce currency
  balance_of (some poloniex) currency = poloniex_balance floats jsmn curl hmac nonce currency
