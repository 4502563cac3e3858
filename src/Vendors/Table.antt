-- ===== src/Vendors/Table.antt =====
-- book/vendor.c: `vendor_get`, with the pointers to the functions of an exchange, and
-- `vendors_get_all`. A pointer that nothing has set is `none`.
use ken_code_de_bridge.Base.{
  Bytes, List, Option, Outcome, [], codes, deref, equal, fault, if◌then◌else◌, map, none, refl,
  some, true, ◌∷◌, ◌≡◌,
}
use ken_code_de_bridge.Vendors.{Vendor, vendor_new, vendor_set_name}

-- Whose functions they are: mock_get_books, bittrex_get_books and so on.
pub data Exchange : Type 0 where
  mock bittrex btc38 poloniex : Exchange

pub record Functions : Type 0 where
  pub books_get : Option Exchange
  pub markets_get : Option Exchange
  pub limit_buy : Option Exchange
  pub limit_sell : Option Exchange
  pub market_buy : Option Exchange
  pub market_sell : Option Exchange
  pub balance : Option Exchange

abbrev pub unset : Functions
unset = record {
  books_get = none;
  markets_get = none;
  limit_buy = none;
  limit_sell = none;
  market_buy = none;
  market_sell = none;
  balance = none;
}

abbrev pub all_of : Exchange → Functions
all_of exchange = record {
  books_get = some exchange;
  markets_get = some exchange;
  limit_buy = some exchange;
  limit_sell = some exchange;
  market_buy = some exchange;
  market_sell = some exchange;
  balance = some exchange;
}

set_all : Bytes → Bytes → Exchange → Functions → Functions
unfolding equal
set_all vendor_name name exchange functions =
    if equal vendor_name name then all_of exchange else functions

functions_of : Bytes → Functions
unfolding equal set_all
functions_of vendor_name = set_all vendor_name (codes "poloniex") poloniex (
    set_all vendor_name (codes "btc38") btc38 (
      set_all vendor_name (codes "bittrex") bittrex (
        if equal vendor_name (codes "mock")
        then record unset { books_get = some mock; markets_get = some mock }
        else unset)))

-- The vendor as its thread is started.
unfoldable pub vendor_get : {D : Type 0} → Bytes → Vendor D × Functions
unfolding functions_of
vendor_get vendor_name =
    (record (vendor_set_name vendor_new vendor_name) { running = true }, functions_of vendor_name)

-- The first step of that thread is a call of `markets_get`.
unfoldable pub fetches_from : Functions → Outcome Exchange
fetches_from functions = deref functions.markets_get

unfoldable pub vendors_get_all : {D : Type 0} → List (Vendor D × Functions)
unfolding vendor_get
vendors_get_all =
    vendor_get (codes "btc38") ∷ vendor_get (codes "bittrex") ∷ vendor_get (codes "poloniex") ∷ []

-- The vendors of the bridge have all their functions.
all_set :
    (D : Type 0)
    → map (λ v. v.1) (vendors_get_all {D = D})
      ≡ all_of btc38 ∷ all_of bittrex ∷ all_of poloniex ∷ []
unfolding vendors_get_all vendor_get functions_of set_all equal
all_set D = refl

-- A name of no vendor is taken, and its thread calls a pointer that nothing has set.
unknown_name : (D : Type 0) → fetches_from (vendor_get {D = D} (codes "kraken")).1 ≡ fault
unfolding fetches_from vendor_get functions_of set_all equal
unknown_name D = refl
