-- ===== src/Checks/Bittrex.antt =====
-- test_book_bittrex of test/test_bittrex.h, from the answers of bittrex.com to its result.
use ken_code_de_bridge.Book.Merge.{merged}
use ken_code_de_bridge.Bittrex.{is_zero}
use ken_code_de_bridge.Bittrex.Account.{bittrex_build_url, bittrex_get_books, bittrex_get_markets}
use ken_code_de_bridge.Bittrex.Markets.{book_bittrex_parse_market-rows}
use ken_code_de_bridge.Base.{
  Bool-cases, Bytes, Floats, List, Option, Outcome, [], codes, equal, false, fault, inl, inr, none,
  ok, out_of_fuel, pos, refl, some, true, ℕ, ◌++◌, ◌∷◌, ◌≡◌,
}
use ken_code_de_bridge.Book.{Market}
use ken_code_de_bridge.Json.{Token, Tokenizer, int_of_text}
use ken_code_de_bridge.Json.Views.{At, View, lacks}
use ken_code_de_bridge.Https.{Curl, utils_https_get, utils_https_new, write_all}
use ken_code_de_bridge.MarketCodec.Fits.{AllNamed}
use ken_code_de_bridge.MarketCodec.Search.{FoundMarket, NoneTrades, Trades}
use ken_code_de_bridge.Bittrex.Rows.{AllOrderly, Row, listed, listing_views}
use ken_code_de_bridge.Bittrex.Books.{AllInOrder, Entry, entries_views, side_of}
use ken_code_de_bridge.Bittrex.Books.Bids.{answer_views, book_bittrex_parse_book-merged}

-- The body that a transfer by GET hands over, whatever its pieces are.
pub record Gets (curl : Curl) (url json : Bytes) : Type 0 where
  pub pieces : List Bytes
  pub performed :
      curl.perform (record { url = url; fields = none; with_headers = [] }) ≡ some pieces
  pub joined : write_all none pieces ≡ some json

-- An answer that lists markets, as the theorem on its parser has it.
pub record ListsMarkets (jsmn : Tokenizer) (json : Bytes) (rows : List Row) : Type 0 where
  pub tokens : List Token
  pub n : ℕ
  pub parsed : jsmn json 65535 ≡ (pos n, tokens)
  pub gap : List View
  pub success : Bytes
  pub tail : List View
  pub laid_out : At json tokens n 0 (listing_views gap success rows tail)
  pub success_first : lacks (codes "success") gap ≡ true
  pub succeeds : is_zero (int_of_text success) ≡ false
  pub orderly : AllOrderly rows
  pub no_more : lacks (codes "MarketCurrency") tail ≡ true

-- And one that has a book.
pub record HasBook (jsmn : Tokenizer) (json : Bytes) (bids asks : List Entry) : Type 0 where
  pub tokens : List Token
  pub n : ℕ
  pub parsed : jsmn json 65535 ≡ (pos n, tokens)
  pub gap : List View
  pub success : Bytes
  pub behind_bids : List View
  pub tail : List View
  pub laid_out : At json tokens n 0 (answer_views gap success bids behind_bids asks tail)
  pub success_first : lacks (codes "success") gap ≡ true
  pub succeeds : is_zero (int_of_text success) ≡ false
  pub bids_in_order : AllInOrder bids
  pub no_bid_behind : lacks (codes "Quantity") behind_bids ≡ true
  pub sell_behind : lacks (codes "sell") (entries_views bids behind_bids) ≡ true
  pub asks_in_order : AllInOrder asks
  pub no_more : lacks (codes "Quantity") tail ≡ true

module _ {D : Type 0} (floats : Floats D) where
  pub listed-AllNamed : (rows : List Row) → AllNamed (listed floats rows)
  listed-AllNamed [] = tt
  listed-AllNamed (r ∷ rows) = elim (Bool-cases (is_zero (int_of_text r.active))) [
    | inl z ↦ rw z (listed-AllNamed rows)
    | inr z ↦ rw z (
      record { base = r.base; quoted = r.currency; has_base = refl; has_quoted = refl },
      listed-AllNamed rows,
    )
  ]

module _ {D : Type 0} where
  pub not-NoneTrades :
      (base quoted : Bytes) (front : List (Market D)) (m : Market D) (back : List (Market D))
      → Trades base quoted m
      → ¬ NoneTrades base quoted (front ++ m ∷ back)
  not-NoneTrades base quoted [] m back trades (ne, others) = ne trades
  not-NoneTrades base quoted (x ∷ front) m back trades (ne, others) =
      not-NoneTrades base quoted front m back trades others

  pub found_one :
      (base quoted : Bytes) (markets : List (Market D)) (r : Outcome (Option (Market D)))
      → FoundMarket base quoted markets r
      → ¬ NoneTrades base quoted markets
      → (m : Market D) × (r ≡ ok (some m)) × Trades base quoted m
  found_one base quoted markets (ok (some m)) (front, back, e, trades, others) some_one =
      (m, refl, trades)
  found_one base quoted markets (ok none) none_trades some_one = absurd (some_one none_trades)
  found_one base quoted markets fault h some_one = elim h [ ]
  found_one base quoted markets out_of_fuel h some_one = elim h [ ]

abbrev pub markets_url : Bytes
markets_url = codes "https://bittrex.com/api/v1.1/public/getmarkets"

abbrev pub book_url : Bytes
book_url =
    codes "https://bittrex.com/api/v1.1/public/getorderbook?market=BTC-LTC&type=both&depth=50"

utils_https_get-joined :
    (curl : Curl) (url json : Bytes)
    → Gets curl url json
    → (utils_https_get curl utils_https_new url).1 ≡ some json
unfolding utils_https_get
utils_https_get-joined curl url json answer = rw answer.performed answer.joined

module _ {D : Type 0} (floats : Floats D) (jsmn : Tokenizer) (curl : Curl) where
  pub bittrex_get_markets-listed :
      (json : Bytes) (rows : List Row)
      → Gets curl markets_url json
      → ListsMarkets jsmn json rows
      → bittrex_get_markets floats jsmn curl ≡ ok (listed floats rows)
  unfolding bittrex_get_markets bittrex_build_url equal
  bittrex_get_markets-listed json rows answer a =
      rw (utils_https_get-joined curl markets_url json answer) (
        book_bittrex_parse_market-rows floats jsmn json a.tokens a.n a.parsed a.gap a.success rows
          a.tail a.laid_out a.success_first a.succeeds a.orderly a.no_more)

  pub bittrex_get_books-merged :
      (market : Market D) (json : Bytes) (bids asks : List Entry)
      → Trades (codes "BTC") (codes "LTC") market
      → Gets curl book_url json
      → HasBook jsmn json bids asks
      → bittrex_get_books floats jsmn curl market
        ≡ ok (merged floats (side_of floats bids) (side_of floats asks))
  unfolding bittrex_get_books bittrex_build_url equal
  bittrex_get_books-merged market json bids asks (base, quoted) answer a =
      rw (base, quoted, utils_https_get-joined curl book_url json answer)
        (book_bittrex_parse_book-merged floats jsmn json a.tokens a.n a.parsed a.gap a.success bids
          a.behind_bids asks a.tail a.laid_out a.success_first a.succeeds a.bids_in_order
          a.no_bid_behind a.sell_behind a.asks_in_order a.no_more)
