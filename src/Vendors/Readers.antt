-- ===== src/Vendors/Readers.antt =====
-- A thread that walks a list of markets which it has read from `current_market`, as those of the
-- connections do, beside the thread that frees the lists (book/vendor.c).
use ken_code_de_bridge.Base.{
  Bool, List, [], ap, arith, false, length, length-append, refl, suc, true, ℕ, ◌*◌, ◌++◌, ◌+◌, ◌<◌,
  ◌∙◌, ◌∷◌, ◌≡◌, ◌≢◌, ◌≤◌,
}
use ken_code_de_bridge.Vendors.Update.{
  Place, Steps, Thread, again, call, done, fetch, fetching, finish, freed_with_vendor, gone,
  market_timeout, newest, none_yet, one_more, pause, refresh, release, set_aside, sleep, slept,
  started, stop, top,
}
use ken_code_de_bridge.Vendors.Freed.{
  Freed, begun, freed_by, kept, left_current, over, with_its_vendor,
}
use ken_code_de_bridge.Vendors.Kept.{
  Invariant, Invariant-Steps, Invariant-started, OnTime, freed_at,
}
use ken_code_de_bridge.Memory.Release.{has}

-- The later calls stand in front of those before.
fetched-Steps : (s t : Thread) → Steps s t → (later : List Bool) × (t.fetched ≡ later ++ s.fetched)
unfolding set_aside refresh slept freed_with_vendor
fetched-Steps s _ none_yet = ([], refl)
fetched-Steps s _ (one_more {t = t} before (call e)) = fetched-Steps s t before
fetched-Steps s _ (one_more {t = t} before (fetch got e)) =
    let (later, e') = fetched-Steps s t before in (got ∷ later, ap (λ fs. got ∷ fs) e')
fetched-Steps s _ (one_more {t = t} before (sleep seconds e r h)) = fetched-Steps s t before
fetched-Steps s _ (one_more {t = t} before (again seconds e r h)) = fetched-Steps s t before
fetched-Steps s _ (one_more {t = t} before (finish seconds e r)) = fetched-Steps s t before
fetched-Steps s _ (one_more {t = t} before stop) = fetched-Steps s t before
fetched-Steps s _ (one_more {t = t} before (release e)) = fetched-Steps s t before

left_current-append :
    (place : Place) (later fetched : List Bool)
    → left_current place (length fetched) (later ++ fetched) ≡ left_current place 0 later
left_current-append top later fetched = refl
left_current-append fetching later fetched = refl
left_current-append (pause seconds) later fetched = refl
left_current-append done later fetched = refl
left_current-append gone later fetched =
    let e = length-append {0} later fetched in ground (arith, e)

begun-append :
    (place : Place) (later fetched : List Bool)
    → begun place (later ++ fetched) ≡ begun place later + length fetched
begun-append top later fetched = length-append {0} later fetched
begun-append fetching later fetched = omega (arith, length-append {0} later fetched)
begun-append (pause seconds) later fetched = length-append {0} later fetched
begun-append done later fetched = length-append {0} later fetched
begun-append gone later fetched = length-append {0} later fetched

newest_is :
    (fetched : List Bool) → newest fetched ≢ 0 → (before : List Bool) × (fetched ≡ true ∷ before)
newest_is [] ne = absurd (ne refl)
newest_is (true ∷ before) ne = (before, refl)
newest_is (false ∷ before) ne = absurd (ne refl)

-- A pause lies between two calls, and at most one behind the last that has returned.
paused :
    (place : Place) (calls clock : ℕ) (fetched : List Bool)
    → length fetched ≡ calls
    → OnTime place calls clock
    → (clock ≤ market_timeout * calls)
      × (market_timeout * begun place fetched ≤ clock + market_timeout)
paused top calls clock fetched n e = (omega (arith, e), omega (arith, e, n))
paused fetching calls clock fetched n e = (omega (arith, e), omega (arith, e, n))
paused (pause seconds) calls clock fetched n (e, le) =
    (omega (arith, e, le), omega (arith, e, n, le))
paused done calls clock fetched n (e, le) = (omega (arith, le), omega (arith, e, n))
paused gone calls clock fetched n (e, le) = (omega (arith, le), omega (arith, e, n))

-- What has become of a list that was current at `s`, as it stands at `t`.
pub data Held (s t : Thread) : Type 0 where
  readable :
      has s.current_market t.freed ≡ false
      → begun t.place t.fetched ≤ length s.fetched + 1
      → left_current t.place (length s.fetched) t.fetched ≡ false
      → Held s t
  released :
      has s.current_market t.freed ≡ true
      → length s.fetched + 1 < begun t.place t.fetched
      → s.clock + market_timeout ≤ t.clock
      → Held s t
  lost_with_vendor :
      has s.current_market t.freed ≡ true
      → left_current t.place (length s.fetched) t.fetched ≡ true
      → Held s t

module _ (s t : Thread) (at_s : Invariant s) (at_t : Invariant t) where
  held :
      (later before : List Bool)
      → t.fetched ≡ later ++ s.fetched
      → s.fetched ≡ true ∷ before
      → Freed t.place later (suc (length before)) (freed_at t.place (later ++ true ∷ before))
      → Held s t
  held later before et es (kept le there free) =
      readable (rw (at_s.is_kept.current, at_t.is_kept.others, et, es) free)
        (rw et (omega (arith, begun-append t.place later s.fetched)))
        (rw et (left_current-append t.place later s.fetched ∙ there))
  held later before et es (over more free) =
      let calls : length s.fetched + 1 < begun t.place t.fetched =
        rw et (omega (arith, begun-append t.place later s.fetched)) in
      let (early, rest) = paused s.place (length s.fetched) s.clock s.fetched refl at_s.on_time in
      let (others, late) = paused t.place (length t.fetched) t.clock t.fetched refl at_t.on_time in
      released (rw (at_s.is_kept.current, at_t.is_kept.others, et, es) free) calls
        (omega (arith, calls, early, late))
  held later before et es (with_its_vendor left free) =
      lost_with_vendor (rw (at_s.is_kept.current, at_t.is_kept.others, et, es) free)
        (rw et (left_current-append t.place later s.fetched ∙ left))

-- However the thread of a vendor runs, and its vendor is freed behind its end, a list that a reader has
-- found as the current one is freed exactly in two cases: when a second call of markets_get has begun
-- behind the one that returned it, and then not before three minutes have passed; or with the vendor,
-- where no call has returned since.
pub current_market-Held :
    (s t : Thread) → Steps started s → Steps s t → s.current_market ≢ 0 → Held s t
current_market-Held s t first then_on ne =
    let at_s = Invariant-Steps started s first Invariant-started in
    let at_t = Invariant-Steps s t then_on at_s in
    let (later, et) = fetched-Steps s t then_on in
    let (before, es) = newest_is s.fetched (λ z. ne (at_s.is_kept.current ∙ z)) in
    held s t at_s at_t later before et es (freed_by t.place later before)
