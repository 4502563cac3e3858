-- ===== src/Checks.antt =====
-- The repository's own tests (test/): what they return, on the vendors as the model has them. What
-- they print is left out, but for the last line, and so is what they free. A test that reads through
-- NULL ends the program.
pub mod Runner
pub mod Bittrex
pub mod All
pub mod Verdict
mod Tests
use ken_code_de_bridge.Base.{
  Bool, Bytes, List, Option, Outcome, [], codes, deref, equal, false, fault, if◌then◌else◌, leb,
  length, none, not, ok, some, true, ◌&&◌, ◌==◌, ◌>>=◌, ◌∷◌,
}
use ken_code_de_bridge.Book.{Balance, Book, Market}
use ken_code_de_bridge.Vendors.{Vendor, vendors_with_market}
use ken_code_de_bridge.Vendors.Calls.{Outside, balance_of, books_get, markets_get}
use ken_code_de_bridge.Vendors.Table.{Functions, vendor_get}
use ken_code_de_bridge.Bittrex.Account.{bittrex_build_url}
use ken_code_de_bridge.MarketCodec.{market_get}

abbrev pub is_empty {ℓ} : {A : Type ℓ} → List A → Bool
is_empty [] = true
is_empty (x ∷ xs) = false

abbrev pointers : {D : Type 0} → Vendor D × Functions → Functions
pointers vendor = vendor.1

module _ {D : Type 0} (at_most_zero : D → Bool) where
  -- A bid and an ask with a price and a quantity each.
  unfoldable pub is_level : Book D → Bool
  is_level book =
      not (at_most_zero book.ask_price)
      && not (at_most_zero book.ask_qty)
      && not (at_most_zero book.bid_price)
      && not (at_most_zero book.bid_qty)

  -- `book->next` is read whether or not it is NULL.
  unfoldable pub verify_book : List (Book D) → Outcome Bool
  unfolding is_level
  verify_book [] = fault
  verify_book (book ∷ []) = fault
  verify_book (book ∷ next ∷ others) = ok (is_level book && is_level next)

  module _ (outside : Outside D) where
    -- The markets of a vendor, unless there are none.
    with_markets : Functions → (List (Market D) → Outcome Bool) → Outcome Bool
    unfolding markets_get
    with_markets vendor next = do
      markets ← markets_get outside vendor.markets_get
      if is_empty markets then ok false else next markets

    with_book : Functions → Market D → (List (Book D) → Outcome Bool) → Outcome Bool
    unfolding books_get
    with_book vendor market next = do
      book ← books_get outside vendor.books_get market
      if is_empty book then ok false else next book

    with_market : Functions → Option (Market D) → (List (Book D) → Outcome Bool) → Outcome Bool
    unfolding with_book
    with_market vendor none next = ok false
    with_market vendor (some market) next = with_book vendor market next

    -- The part that the tests of the three vendors share, line by line.
    test_book : Bytes → Bytes → Bytes → (List (Book D) → Outcome Bool) → Outcome Bool
    unfolding vendor_get with_markets with_market market_get
    test_book vendor_name base_currency market_currency verify =
        let vendor = pointers (vendor_get {D = D} vendor_name) in
        with_markets vendor λ markets. do
          found ← market_get markets base_currency market_currency
          with_market vendor found verify

    unfoldable pub test_book_btc38 : Outcome Bool
    unfolding test_book
    test_book_btc38 = test_book (codes "btc38") (codes "BTC") (codes "QRK") verify_book

    unfoldable pub test_book_poloniex : Outcome Bool
    unfolding test_book
    test_book_poloniex = test_book (codes "poloniex") (codes "BTC") (codes "LTC") verify_book

    -- The last test of test_book_bittrex: `book->next == NULL`.
    has_next : List (Book D) → Bool
    has_next [] = false
    has_next (book ∷ []) = false
    has_next (book ∷ next ∷ others) = true

    verify_two : List (Book D) → Outcome Bool
    unfolding verify_book has_next
    verify_two book = do verified ← verify_book book; ok (verified && has_next book)

    unfoldable pub test_book_bittrex : Outcome Bool
    unfolding test_book verify_two
    test_book_bittrex = test_book (codes "bittrex") (codes "BTC") (codes "LTC") verify_two

    unfoldable pub test_market_bittrex : Outcome Bool
    unfolding vendor_get with_markets
    test_market_bittrex =
        with_markets (pointers (vendor_get {D = D} (codes "bittrex")))
          λ markets. ok (leb 2 (length markets))

    mock_bid : List (Book D) → Outcome Bool
    mock_bid [] = ok false
    mock_bid (book ∷ others) = ok (not (at_most_zero book.bid_price))

    -- The first market is asked for.
    first_book : Functions → List (Market D) → Outcome Bool
    unfolding with_book mock_bid
    first_book vendor [] = ok false
    first_book vendor (market ∷ others) = with_book vendor market mock_bid

    unfoldable pub test_book_mock : Outcome Bool
    unfolding vendor_get with_markets first_book
    test_book_mock =
        let vendor = pointers (vendor_get {D = D} (codes "mock")) in
        with_markets vendor λ markets. first_book vendor markets

    is_balance : Option (Balance D) → Bool
    is_balance none = false
    is_balance (some balance) = true

    test_balance : Bytes → Outcome Bool
    unfolding vendor_get balance_of is_balance
    test_balance vendor_name = do
      balance ← balance_of outside (pointers (vendor_get {D = D} vendor_name)).balance (codes "BTC")
      ok (is_balance balance)

    unfoldable pub test_bittrex_account_balance : Outcome Bool
    unfolding test_balance
    test_bittrex_account_balance = test_balance (codes "bittrex")

    unfoldable pub test_btc38_account_balance : Outcome Bool
    unfolding test_balance
    test_btc38_account_balance = test_balance (codes "btc38")

    unfoldable pub test_poloniex_account_balance : Outcome Bool
    unfolding test_balance
    test_poloniex_account_balance = test_balance (codes "poloniex")

    -- A vendor of the list has the pointers that its name has given it. A market that is not there
    -- is read all the same.
    verify_vendor : Vendor D → Outcome Bool
    unfolding vendor_get market_get books_get verify_book
    verify_vendor vendor = do
      name ← deref vendor.name
      found ← market_get vendor.current_market (codes "BTC") (codes "LTC")
      market ← deref found
      book ← books_get outside (pointers (vendor_get {D = D} name)).books_get market
      verify_book book

    -- A book that fails is only reported.
    verify_vendors : List (Vendor D) → Outcome (Unit {0})
    unfolding verify_vendor
    verify_vendors [] = ok tt
    verify_vendors (vendor ∷ others) = do verified ← verify_vendor vendor; verify_vendors others

    -- The vendors are those of vendors_get_all, as they stand when all have been initialized.
    unfoldable pub test_book_all : List (Vendor D) → Outcome Bool
    unfolding vendors_with_market verify_vendors
    test_book_all vendors = do
      found ← vendors_with_market vendors (codes "BTC") (codes "LTC")
      verified ← verify_vendors found
      ok (length found == 2)

unfoldable pub test_book_bittrex_url : Outcome Bool
unfolding bittrex_build_url equal
test_book_bittrex_url = do
  results ← bittrex_build_url (codes "public") (codes "getmarkets") none
  private ← bittrex_build_url (codes "market") (codes "buylimit") (some (codes "nonce"))
  ok (
      equal results (codes "https://bittrex.com/api/v1.1/public/getmarkets")
      && equal private (
          codes
            "https://bittrex.com/api/v1.1/market/buylimit?apikey=55bbbe56a47046ac858f26110b044b6d&nonce=nonce"))
