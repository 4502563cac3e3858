-- ===== src/Checks/Verdict.antt =====
-- What test_book_bittrex of test/test_bittrex.h says of the answers of bittrex.com.
use ken_code_de_bridge.Checks.Bittrex.{
  Gets, HasBook, ListsMarkets, bittrex_get_books-merged, bittrex_get_markets-listed, book_url,
  found_one, listed-AllNamed, markets_url, not-NoneTrades,
}
use mathlib.Core.Path.{subst}
use ken_code_de_bridge.MarketCodec.Search.{NoneTrades, Trades, market_get-FoundMarket}
use ken_code_de_bridge.Bittrex.Rows.{Row, listed}
use ken_code_de_bridge.Book.Merge.{merged}
use ken_code_de_bridge.Bittrex.Books.{Entry, side_of}
use ken_code_de_bridge.Book.{Book, Market}
use ken_code_de_bridge.Base.{
  Bool, Bytes, List, Outcome, [], ap, codes, equal, false, fault, if◌then◌else◌, ok, refl, some,
  true, ◌&&◌, ◌++◌, ◌∙◌, ◌∷◌, ◌≡◌,
}
use ken_code_de_bridge.Vendors.Calls.{Outside, books_get, markets_get}
use ken_code_de_bridge.Vendors.Table.{vendor_get}
use ken_code_de_bridge.Checks.{
  has_next, is_empty, is_level, test_book, test_book_bittrex, verify_book, verify_two, with_book,
  with_market, with_markets,
}
use ken_code_de_bridge.MarketCodec.{market_get}
use ken_code_de_bridge.Bittrex.Account.{bittrex_get_books, bittrex_get_markets}

module _ {D : Type 0} (at_most_zero : D → Bool) where
  -- A book passes with a bid and an ask at each of its first two levels, and one with a single
  -- level is read behind its end.
  abbrev pub verdict : List (Book D) → Outcome Bool
  verdict [] = ok false
  verdict (book ∷ []) = fault
  verdict (book ∷ next ∷ others) = ok (is_level at_most_zero book && is_level at_most_zero next)

  module _ (outside : Outside D) where
    open outside use {floats, jsmn, curl}

    verified :
        (book : List (Book D))
        → (if is_empty book then ok false else verify_two at_most_zero outside book) ≡ verdict book
    unfolding verify_two verify_book has_next
    verified [] = refl
    verified (book ∷ []) = refl
    verified (book ∷ next ∷ others) =
        ap ok (and-true (is_level at_most_zero book && is_level at_most_zero next))
      where
        and-true : (b : Bool) → (b && true) ≡ b
        and-true true = refl
        and-true false = refl

    steps :
        (markets : List (Market D)) (market : Market D) (book : List (Book D))
        → bittrex_get_markets floats jsmn curl ≡ ok markets
        → is_empty markets ≡ false
        → market_get markets (codes "BTC") (codes "LTC") ≡ ok (some market)
        → bittrex_get_books floats jsmn curl market ≡ ok book
        → test_book_bittrex at_most_zero outside ≡ verdict book
    unfolding test_book_bittrex test_book vendor_get with_markets with_market with_book markets_get
        books_get equal
    steps markets market book got some_there found has =
        rw (got, some_there, found, has) (verified book)

not-is_empty :
    {D : Type 0} (front : List (Market D)) (m : Market D) (back : List (Market D))
    → is_empty (front ++ m ∷ back) ≡ false
not-is_empty [] m back = refl
not-is_empty (x ∷ front) m back = refl

-- Where bittrex.com lists markets of which an active one has the pair BTC and LTC, and gives the book
-- of that pair, both laid out with their keys in order, test_book_bittrex succeeds exactly where the
-- book of these bids and asks has a bid and an ask with positive price and quantity at each of its
-- first two levels, fails on any other book with two levels and on one with none, and reads through
-- NULL at one with a single level.
pub test_book_bittrex-verdict :
    {D : Type 0} (at_most_zero : D → Bool) (outside : Outside D) (markets_json book_json : Bytes)
    (rows : List Row) (bids asks : List Entry) (front : List (Market D)) (m : Market D)
    (back : List (Market D))
    → Gets outside.curl markets_url markets_json
    → ListsMarkets outside.jsmn markets_json rows
    → Gets outside.curl book_url book_json
    → HasBook outside.jsmn book_json bids asks
    → listed outside.floats rows ≡ front ++ m ∷ back
    → Trades (codes "BTC") (codes "LTC") m
    → test_book_bittrex at_most_zero outside
      ≡ verdict at_most_zero
          (merged outside.floats (side_of outside.floats bids) (side_of outside.floats asks))
test_book_bittrex-verdict at_most_zero outside markets_json book_json rows bids asks front m back
      answer lists answer' has e trades =
    let markets = listed outside.floats rows in
    let pair_there : ¬ NoneTrades (codes "BTC") (codes "LTC") markets = λ none_there.
      not-NoneTrades (codes "BTC") (codes "LTC") front m back trades
        (subst (NoneTrades (codes "BTC") (codes "LTC")) e none_there) in
    let (market, found, traded) =
      found_one (codes "BTC") (codes "LTC") markets _
        (market_get-FoundMarket (codes "BTC") (codes "LTC") markets
          (listed-AllNamed outside.floats rows))
        pair_there in
    steps at_most_zero outside markets market _
      (bittrex_get_markets-listed outside.floats outside.jsmn outside.curl markets_json rows answer
        lists)
      (ap is_empty e ∙ not-is_empty front m back) found
      (bittrex_get_books-merged outside.floats outside.jsmn outside.curl market book_json bids asks
        traded answer' has)
