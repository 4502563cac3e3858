-- ===== src/Vendors/Kept.antt =====
-- The lists of a vendor over the life of its thread.
use mathlib.Core.Path.{subst}
use ken_code_de_bridge.Base.{
  Bool, List, [], ap, arith, false, if◌then◌else◌, length, refl, suc, true, ℕ, ◌*◌, ◌+◌, ◌∙◌, ◌∷◌,
  ◌≡◌, ◌≤◌,
}
use ken_code_de_bridge.Vendors.Update.{
  Place, Step, Steps, Thread, again, call, done, fetch, fetching, finish, free_old,
  freed_with_vendor, gone, market_timeout, newest, none_yet, one_more, pause, refresh, release,
  set_aside, sleep, slept, started, stop, top,
}

-- The lists that calls returned, the newest in front.
abbrev pub lists_of : List Bool → List ℕ
lists_of [] = []
lists_of (got ∷ fetched) =
    let before = lists_of fetched in if got then suc (length fetched) ∷ before else before

-- The calls before the newest.
abbrev pub before_newest : List Bool → List Bool
before_newest [] = []
before_newest (got ∷ fetched) = fetched

-- What the clock says at each place.
abbrev pub OnTime : Place → ℕ → ℕ → Type 0
OnTime top calls clock = clock ≡ market_timeout * calls
OnTime fetching calls clock = clock ≡ market_timeout * calls
OnTime (pause seconds) calls clock =
    (clock + market_timeout ≡ market_timeout * calls + seconds) × (seconds ≤ market_timeout)
OnTime done calls clock =
    (market_timeout * calls ≤ clock + market_timeout) × (clock ≤ market_timeout * calls)
OnTime gone calls clock =
    (market_timeout * calls ≤ clock + market_timeout) × (clock ≤ market_timeout * calls)

-- The calls up to the one whose list is in `to_be_deleted`: while markets_get runs, the newest is.
abbrev pub set_aside_by : Place → List Bool → List Bool
set_aside_by fetching fetched = fetched
set_aside_by place fetched = before_newest fetched

-- The lists that are freed: those before the one in `to_be_deleted`, and in the end the current one
-- with its vendor.
abbrev pub freed_at : Place → List Bool → List ℕ
freed_at gone fetched = free_old (newest fetched) (lists_of (before_newest (before_newest fetched)))
freed_at place fetched = lists_of (before_newest (set_aside_by place fetched))

-- The list of the newest call is the current one. It is kept while the next call runs, and the list
-- before it else; those of the calls before that are freed, each once, and the current one with the
-- vendor. A whole pause has passed for each call before the newest.
pub record IsKept (s : Thread) : Type 0 where
  pub current : s.current_market ≡ newest s.fetched
  pub old : s.to_be_deleted ≡ newest (set_aside_by s.place s.fetched)
  pub others : s.freed ≡ freed_at s.place s.fetched
  pub waited : market_timeout * length s.fetched ≤ s.clock + market_timeout

pub record Invariant (s : Thread) : Type 0 where
  pub is_kept : IsKept s
  pub on_time : OnTime s.place (length s.fetched) s.clock

free_old-newest :
    (fetched : List Bool)
    → free_old (newest fetched) (lists_of (before_newest fetched)) ≡ lists_of fetched
free_old-newest [] = refl
free_old-newest (true ∷ fetched) = refl
free_old-newest (false ∷ fetched) = refl

IsKept-moved :
    (s : Thread) (place : Place) (running : Bool)
    → set_aside_by s.place s.fetched ≡ set_aside_by place s.fetched
    → freed_at s.place s.fetched ≡ freed_at place s.fetched
    → IsKept s
    → IsKept (record s { place = place; running = running })
IsKept-moved s place running e e' k = record {
  current = k.current;
  old = k.old ∙ ap newest e;
  others = k.others ∙ e';
  waited = k.waited;
}

Invariant-Step : (s t : Thread) → Step s t → Invariant s → Invariant t
unfolding set_aside refresh slept freed_with_vendor
Invariant-Step s _ (call e) i =
    let time = subst (λ p. OnTime p (length s.fetched) s.clock) e i.on_time in
    let at_top : set_aside_by s.place s.fetched ≡ before_newest s.fetched = rw e refl in
    let freed_top : freed_at s.place s.fetched
        ≡ lists_of (before_newest (before_newest s.fetched)) =
      rw e refl in
    record {
      is_kept = record {
        current = i.is_kept.current;
        old = i.is_kept.current;
        others =
            ap (λ m. free_old m s.freed) (i.is_kept.old ∙ ap newest at_top)
            ∙ ap (free_old (newest (before_newest s.fetched))) (i.is_kept.others ∙ freed_top)
            ∙ free_old-newest (before_newest s.fetched);
        waited = i.is_kept.waited;
      };
      on_time = time;
    }
Invariant-Step s _ (fetch got e) i =
    let time = subst (λ p. OnTime p (length s.fetched) s.clock) e i.on_time in
    let at_call : set_aside_by s.place s.fetched ≡ s.fetched = rw e refl in
    let freed_call : freed_at s.place s.fetched ≡ lists_of (before_newest s.fetched) = rw e refl in
    record {
      is_kept = record {
        current = refl;
        old = i.is_kept.old ∙ ap newest at_call;
        others = i.is_kept.others ∙ freed_call;
        waited = omega (arith, time);
      };
      on_time = (omega (arith, time), omega arith);
    }
Invariant-Step s _ (sleep seconds e r h) i =
    let (time, le) = subst (λ p. OnTime p (length s.fetched) s.clock) e i.on_time in
    let kept = IsKept-moved s (pause (seconds + 1)) s.running (rw e refl) (rw e refl) i.is_kept in
    record {
      is_kept = record {
        current = kept.current;
        old = kept.old;
        others = kept.others;
        waited = omega (arith, i.is_kept.waited);
      };
      on_time = (omega (arith, time), omega arith);
    }
Invariant-Step s _ (again seconds e r h) i =
    let (time, le) = subst (λ p. OnTime p (length s.fetched) s.clock) e i.on_time in
    record {
      is_kept = IsKept-moved s top s.running (rw e refl) (rw e refl) i.is_kept;
      on_time = omega (arith, time, le);
    }
Invariant-Step s _ (finish seconds e r) i =
    let (time, le) = subst (λ p. OnTime p (length s.fetched) s.clock) e i.on_time in
    record {
      is_kept = IsKept-moved s done s.running (rw e refl) (rw e refl) i.is_kept;
      on_time = (i.is_kept.waited, omega (arith, time, le));
    }
Invariant-Step s _ stop i = record {
  is_kept = IsKept-moved s s.place false refl refl i.is_kept;
  on_time = i.on_time;
}
Invariant-Step s _ (release e) i =
    let (time, le) = subst (λ p. OnTime p (length s.fetched) s.clock) e i.on_time in
    let at_end : set_aside_by s.place s.fetched ≡ before_newest s.fetched = rw e refl in
    let freed_end : freed_at s.place s.fetched
        ≡ lists_of (before_newest (before_newest s.fetched)) =
      rw e refl in
    record {
      is_kept = record {
        current = i.is_kept.current;
        old = i.is_kept.old ∙ ap newest at_end;
        others =
            ap (λ m. free_old m s.freed) i.is_kept.current
            ∙ ap (free_old (newest s.fetched)) (i.is_kept.others ∙ freed_end);
        waited = i.is_kept.waited;
      };
      on_time = (time, le);
    }

pub Invariant-Steps : (s t : Thread) → Steps s t → Invariant s → Invariant t
Invariant-Steps s _ none_yet i = i
Invariant-Steps s _ (one_more {t = t} before step) i =
    Invariant-Step t _ step (Invariant-Steps s t before i)

pub Invariant-started : Invariant started
Invariant-started = record {
  is_kept = record { current = refl; old = refl; others = refl; waited = omega arith };
  on_time = refl;
}

-- However the thread runs and is stopped, and whichever calls of markets_get return a list: that of
-- the newest call is the current one; it is kept while the next call runs, and else the list of the
-- call before it is; those of the calls before that are freed, each exactly once and in order, and the
-- current one with its vendor, behind the end of the thread; and three minutes have passed for each
-- call before the newest.
pub vendor_update_loop-IsKept : (s : Thread) → Steps started s → IsKept s
vendor_update_loop-IsKept s steps = (Invariant-Steps started s steps Invariant-started).is_kept
