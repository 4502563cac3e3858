-- ===== src/Vendors/Tests.antt =====
-- book/vendor.c at two vendors, and at a hash table that is a list.
use mathlib.Core.Path.{refl, ◌≡◌}
use ken_code_de_bridge.Base.{List, [], codes, equal, false, ok, some, true, ℕ, ◌∷◌}
use ken_code_de_bridge.Fixtures.{small_micro}
use ken_code_de_bridge.Vendors.Sample.{
  both_plain, both_ready, first_vendor, listed, listed-IsKhash, second_vendor, trade, trade-IsNamed,
  two_vendors,
}
use ken_code_de_bridge.Book.{Market}
use ken_code_de_bridge.Vendors.{Vendor, vendor_get_all_trading_pairs, vendors_with_market}
use ken_code_de_bridge.Vendors.Traders.{vendors_with_market-keep}
use ken_code_de_bridge.Vendors.Firsts.{ListsPairs, vendor_get_all_trading_pairs-firsts}
use ken_code_de_bridge.Vendors.Update.{
  Steps, Thread, call, done, fetch, finish, freed_with_vendor, none_yet, one_more, refresh, release,
  set_aside, started, stop,
}
use ken_code_de_bridge.Vendors.Readers.{Held, current_market-Held}
use ken_code_de_bridge.Vendors.Kept.{IsKept, vendor_update_loop-IsKept}

-- One that has no markets yet.
abbrev slow_vendor : Vendor ℕ
slow_vendor = record {
  name = some (codes "poloniex");
  is_initialized = false;
  current_market = [];
  running = true;
}

vendors_with_market-keep_example :
    vendors_with_market
      (first_vendor ∷ slow_vendor ∷ second_vendor ∷ [])
      (codes "DOGE")
      (codes "BTC")
    ≡ ok (first_vendor ∷ [])
unfolding equal
vendors_with_market-keep_example =
    vendors_with_market-keep (codes "DOGE") (codes "BTC")
      (first_vendor ∷ slow_vendor ∷ second_vendor ∷ [])
      ((trade-IsNamed _ _ _, (trade-IsNamed _ _ _, tt)), (tt, ((trade-IsNamed _ _ _, tt), tt)))

-- The pair that both vendors trade is listed once.
vendor_get_all_trading_pairs-firsts_example :
    (pairs : List (Market ℕ)) × (vendor_get_all_trading_pairs small_micro listed two_vendors
      ≡ ok pairs)
    × ListsPairs small_micro two_vendors both_ready pairs
vendor_get_all_trading_pairs-firsts_example =
    vendor_get_all_trading_pairs-firsts small_micro listed listed-IsKhash two_vendors both_ready
      both_plain

-- A base name with '~' may make two pairs one: the second is lost.
abbrev with_tildes : Vendor ℕ
with_tildes = record {
  name = some (codes "btc38");
  is_initialized = true;
  current_market = trade (codes "A~B") (codes "C") 7 ∷ trade (codes "A") (codes "B~C") 5 ∷ [];
  running = true;
}

lost_pair :
    vendor_get_all_trading_pairs small_micro listed (with_tildes ∷ [])
    ≡ ok (trade (codes "A~B") (codes "C") 7 ∷ [])
unfolding vendor_get_all_trading_pairs equal
lost_pair = refl

-- The first call, and a list that it returns.
abbrev fetched_once : Thread
fetched_once = refresh true (set_aside started)

fetched_once-Steps : Steps started fetched_once
unfolding set_aside
fetched_once-Steps = one_more (one_more none_yet (call refl)) (fetch true refl)

vendor_update_loop-IsKept_example : IsKept fetched_once
vendor_update_loop-IsKept_example = vendor_update_loop-IsKept fetched_once fetched_once-Steps

-- The vendor is freed while a reader has the list.
abbrev stopped_once : Thread
stopped_once = record fetched_once { place = done; running = false }

current_market-Held_example : Held fetched_once (freed_with_vendor stopped_once)
unfolding set_aside refresh
current_market-Held_example =
    current_market-Held fetched_once (freed_with_vendor stopped_once) fetched_once-Steps
      (one_more (one_more (one_more none_yet stop) (finish 0 refl refl)) (release refl)) (λ e. cc e)
