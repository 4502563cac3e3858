-- ===== src/Vendors.antt =====
-- book/vendor.c: the vendors, the vendors that trade a pair, and the list of all pairs. The hash
-- table (khash, a library kept in the tree) is a parameter with its contract. The threads that fill
-- `current_market` run beside: a function sees each vendor as it is when it comes to it.
pub mod Traders
pub mod Keys
pub mod Pairs
pub mod Listed
pub mod Firsts
pub mod Update
pub mod Kept
pub mod Freed
pub mod Readers
pub mod Table
pub mod Calls
pub mod Sample
mod Tests
use ken_code_de_bridge.Base.{
  Bool, Bytes, Floats, List, Option, Outcome, [], deref, false, if◌then◌else◌, none, ok,
  out_of_fuel, some, ◌++◌, ◌>>=◌, ◌∷◌,
}
use ken_code_de_bridge.Book.{Market, market_new}
use ken_code_de_bridge.MarketCodec.{market_get}

-- `struct Vendor`, without its thread and the pointers to its functions.
pub record Vendor (D : Type 0) : Type 0 where
  pub name : Option Bytes
  pub is_initialized : Bool
  pub current_market : List (Market D)
  pub running : Bool

abbrev pub vendor_new : {D : Type 0} → Vendor D
vendor_new = record { name = none; is_initialized = false; current_market = []; running = false }

abbrev pub vendor_set_name : {D : Type 0} → Vendor D → Bytes → Vendor D
vendor_set_name vendor name = record vendor { name = some name }

-- "try it the normal way", and then "the opposite way"
abbrev either_way :
    {D : Type 0} → Option (Market D) → Outcome (Option (Market D)) → Outcome (Option (Market D))
either_way (some mkt) opposite = ok (some mkt)
either_way none opposite = opposite

abbrev with_vendor : {D : Type 0} → Option (Market D) → Vendor D → List (Vendor D) → List (Vendor D)
with_vendor none vendor list = list
with_vendor (some mkt) vendor list = vendor ∷ list

unfoldable pub vendors_with_market :
    {D : Type 0} → List (Vendor D) → Bytes → Bytes → Outcome (List (Vendor D))
unfolding market_get
vendors_with_market [] base_currency market_currency = ok []
vendors_with_market (current ∷ next) base_currency market_currency =
    let rest = vendors_with_market next base_currency market_currency in
    let looked = do
      normal ← market_get current.current_market base_currency market_currency
      mkt ← either_way normal (market_get current.current_market market_currency base_currency)
      list ← rest
      ok (with_vendor mkt current list)
    in if current.is_initialized then looked else rest

-- The hash table by what is called: `kh_put` gives nothing for a key that is there, and else the
-- table with the value, which the code stores at once. `kh_entries` is what an iteration meets.
pub record Khash (V : Type 0) : Type 1 where
  pub Table : Type 0
  pub kh_init : Table
  pub kh_put : Table → Bytes → V → Option Table
  pub kh_entries : Table → List (Bytes × V)

-- `snprintf(key, str_len, "%s~%s", …)`
abbrev pub key_of : Bytes → Bytes → Bytes
key_of base quoted = base ++ b'~' ∷ quoted

abbrev or_old {ℓ} : {A : Type ℓ} → A → Option A → A
or_old old none = old
or_old old (some fresh) = fresh

-- The new market: the two currencies and the fee.
abbrev pub pair_market : {D : Type 0} → Floats D → Bytes → Bytes → D → Market D
pair_market floats base quoted fee = record (market_new floats) {
  base_currency = some base;
  market_currency = some quoted;
  fee = fee;
}

abbrev pub values : {D : Type 0} → List (Bytes × Market D) → List (Market D)
values [] = []
values ((key, market) ∷ entries) = market ∷ values entries

module _ {D : Type 0} (floats : Floats D) (khash : Khash (Market D)) where
  put_market : khash.Table → Market D → Outcome khash.Table
  put_market hashtable market = do
    base ← deref market.base_currency
    quoted ← deref market.market_currency
    ok (
        or_old hashtable
          (khash.kh_put hashtable (key_of base quoted) (pair_market floats base quoted market.fee)))

  put_markets : khash.Table → List (Market D) → Outcome khash.Table
  put_markets hashtable [] = ok hashtable
  put_markets hashtable (current_market ∷ next) = do
    longer ← put_market hashtable current_market
    put_markets longer next

  -- The wait for a vendor that is not initialized has no end where nothing else runs.
  put_vendors : khash.Table → List (Vendor D) → Outcome khash.Table
  put_vendors hashtable [] = ok hashtable
  put_vendors hashtable (current ∷ next) =
      let rest = do longer ← put_markets hashtable current.current_market; put_vendors longer next
      in if current.is_initialized then rest else out_of_fuel

  unfoldable pub vendor_get_all_trading_pairs : List (Vendor D) → Outcome (List (Market D))
  unfolding put_market put_markets put_vendors
  vendor_get_all_trading_pairs vendor_head = do
    hashtable ← put_vendors khash.kh_init vendor_head
    ok (values (khash.kh_entries hashtable))
