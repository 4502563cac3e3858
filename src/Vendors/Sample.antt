-- ===== src/Vendors/Sample.antt =====
-- Two vendors, and a hash table that is a list, for the tests.
use mathlib.Core.Path.{refl}
use ken_code_de_bridge.Base.{Bytes, List, Option, [], codes, none, some, true, ℕ, ◌∷◌}
use ken_code_de_bridge.Fixtures.{small_micro}
use ken_code_de_bridge.Book.{Market}
use ken_code_de_bridge.MarketCodec.Fits.{IsNamed}
use ken_code_de_bridge.Vendors.{Khash, Vendor, pair_market}
use ken_code_de_bridge.Vendors.Keys.{IsKhash, lookup}
use ken_code_de_bridge.Vendors.Firsts.{PlainNames}
use ken_code_de_bridge.Vendors.Pairs.{AllReady}

abbrev pub trade : Bytes → Bytes → ℕ → Market ℕ
trade base quoted fee = pair_market small_micro base quoted fee

abbrev pub first_vendor : Vendor ℕ
first_vendor = record {
  name = some (codes "btc38");
  is_initialized = true;
  current_market = trade (codes "BTC") (codes "LTC") 7 ∷ trade (codes "BTC") (codes "DOGE") 7 ∷ [];
  running = true;
}

abbrev pub second_vendor : Vendor ℕ
second_vendor = record {
  name = some (codes "bittrex");
  is_initialized = true;
  current_market = trade (codes "BTC") (codes "LTC") 5 ∷ [];
  running = true;
}

abbrev pub trade-IsNamed : (base quoted : Bytes) (fee : ℕ) → IsNamed (trade base quoted fee)
trade-IsNamed base quoted fee = record {
  base = base;
  has_base = refl;
  quoted = quoted;
  has_quoted = refl;
}

-- A table as a list of its entries.
abbrev put_or_refuse :
    List (Bytes × Market ℕ)
    → Bytes
    → Market ℕ
    → Option (Market ℕ)
    → Option (List (Bytes × Market ℕ))
put_or_refuse t key value none = some ((key, value) ∷ t)
put_or_refuse t key value (some old) = none

abbrev pub listed : Khash (Market ℕ)
listed = record {
  Table = List (Bytes × Market ℕ);
  kh_init = [];
  kh_put = λ t key value. put_or_refuse t key value (lookup key t);
  kh_entries = λ t. t;
}

pub listed-IsKhash : IsKhash listed
listed-IsKhash = record {
  init_empty = refl;
  put_old = λ t key value old e. rw e;
  put_new = λ t key value distinct e. ((key, value) ∷ t, rw e refl, (e, distinct), λ other. refl);
}

abbrev pub both_ready : AllReady small_micro (first_vendor ∷ second_vendor ∷ [])
both_ready =
    (refl, (trade-IsNamed _ _ _, (trade-IsNamed _ _ _, tt)), (refl, (trade-IsNamed _ _ _, tt), tt))

abbrev pub two_vendors : List (Vendor ℕ)
two_vendors = first_vendor ∷ second_vendor ∷ []

abbrev pub both_plain : PlainNames small_micro two_vendors both_ready
both_plain = ((refl, (refl, tt)), ((refl, tt), tt))
