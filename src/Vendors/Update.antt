-- ===== src/Vendors/Update.antt =====
-- `vendor_update_loop`: the thread that fetches a vendor's markets, as a relation on its states. A
-- list is known by the number of the call of `markets_get` that returned it; 0 is NULL.
use ken_code_de_bridge.Base.{
  Bool, List, [], false, if◌then◌else◌, length, suc, true, zero, ℕ, ◌+◌, ◌<◌, ◌∷◌, ◌≡◌, ◌≤◌,
}

-- Where the thread is: at the top of its loop, in markets_get, in the pause (after so many seconds), at
-- its end, or gone with its vendor.
pub data Place : Type 0 where
  top : Place
  fetching : Place
  pause : ℕ → Place
  done : Place
  gone : Place

pub record Thread : Type 0 where
  pub place : Place
  pub running : Bool
  pub is_initialized : Bool
  -- `vendor->current_market` and `to_be_deleted`
  pub current_market : ℕ
  pub to_be_deleted : ℕ
  -- the lists that `market_free` was called with and the calls of `markets_get`, both with the newest
  -- in front, and the seconds slept; a call is whether it returned a list, or NULL
  pub freed : List ℕ
  pub fetched : List Bool
  pub clock : ℕ

-- 3 minutes
abbrev pub market_timeout : ℕ
market_timeout = 180

-- `to_be_deleted` is freed unless it is NULL.
abbrev pub free_old : ℕ → List ℕ → List ℕ
free_old zero freed = freed
free_old (suc m) freed = suc m ∷ freed

-- What the newest call returned.
abbrev pub newest : List Bool → ℕ
newest [] = 0
newest (got ∷ fetched) = if got then suc (length fetched) else 0

-- One turn of the outer loop, up to the call of markets_get, and from its return up to the pause.
unfoldable pub set_aside : Thread → Thread
set_aside s = record s {
  place = fetching;
  to_be_deleted = s.current_market;
  freed = free_old s.to_be_deleted s.freed;
}

unfoldable pub refresh : Bool → Thread → Thread
refresh got s = record s {
  place = pause 0;
  is_initialized = true;
  current_market = newest (got ∷ s.fetched);
  fetched = got ∷ s.fetched;
}

-- A second of the pause.
unfoldable pub slept : ℕ → Thread → Thread
slept seconds s = record s { place = pause (seconds + 1); clock = s.clock + 1 }

-- `vendor_free` behind `pthread_join`: the current list is freed with the vendor.
unfoldable pub freed_with_vendor : Thread → Thread
freed_with_vendor s = record s { place = gone; freed = free_old s.current_market s.freed }

-- The steps; `stop` and `release` are `vendor_free`, in another thread, which waits in between for the
-- end of this one.
pub data Step : Thread → Thread → Type 0 where
  call : {s : Thread} → s.place ≡ top → Step s (set_aside s)
  fetch : {s : Thread} (got : Bool) → s.place ≡ fetching → Step s (refresh got s)
  sleep :
      {s : Thread} (seconds : ℕ)
      → s.place ≡ pause seconds
      → s.running ≡ true
      → seconds < market_timeout
      → Step s (slept seconds s)
  again :
      {s : Thread} (seconds : ℕ)
      → s.place ≡ pause seconds
      → s.running ≡ true
      → market_timeout ≤ seconds
      → Step s (record s { place = top })
  finish :
      {s : Thread} (seconds : ℕ)
      → s.place ≡ pause seconds
      → s.running ≡ false
      → Step s (record s { place = done })
  stop : {s : Thread} → Step s (record s { running = false })
  release : {s : Thread} → s.place ≡ done → Step s (freed_with_vendor s)

pub data Steps : Thread → Thread → Type 0 where
  none_yet : {s : Thread} → Steps s s
  one_more : {s t u : Thread} → Steps s t → Step t u → Steps s u

-- The state in which `vendor_get` starts the thread.
abbrev pub started : Thread
started = record {
  place = top;
  running = true;
  is_initialized = false;
  current_market = 0;
  to_be_deleted = 0;
  freed = [];
  fetched = [];
  clock = 0;
}
