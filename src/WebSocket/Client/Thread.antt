-- ===== src/WebSocket/Client/Thread.antt =====
-- utils/websocket.c: the thread of the events. wslay is a parameter: what it wants, and what a read
-- or a write event makes of it, with whether it succeeds.
use ken_code_de_bridge.Base.{
  Bool, List, Option, Outcome, [], false, if◌then◌else◌, none, ok, out_of_fuel, some, true, ◌||◌,
  ◌∷◌,
}

-- `EPOLLIN` and `EPOLLOUT`.
pub record Events : Type 0 where
  pub epollin : Bool
  pub epollout : Bool

-- One turn of the loop: what `epoll_wait` gives, with nothing for -1, and whether `epoll_ctl`
-- succeeds behind the events.
pub record Round : Type 0 where
  pub waited : Option (List Events)
  pub modified : Bool

-- The end of the thread; `exits` is the end of the whole program.
pub data ThreadEnd : Type 0 where
  no_epoll : ThreadEnd
  wait_failed : ThreadEnd
  event_failed : ThreadEnd
  finished : ThreadEnd
  exits : ThreadEnd

pub record Wslay (W : Type 0) : Type 0 where
  pub want_read : W → Bool
  pub want_write : W → Bool
  pub on_read : W → Bool × W
  pub on_write : W → Bool × W

module _ {W : Type 0} (wslay : Wslay W) where
  -- What the socket is watched for, with nothing where the program exits.
  unfoldable pub ctl_epollev : Bool → W → Option Events
  ctl_epollev succeeds ws =
      if succeeds
      then some (record { epollin = wslay.want_read ws; epollout = wslay.want_write ws })
      else none

  written : Bool → Bool × W → Bool × W
  written out (false, ws) = (false, ws)
  written out (true, ws) = if out then wslay.on_write ws else (true, ws)

  -- The events, up to the first that fails.
  unfoldable pub on_events : List Events → W → Bool × W
  unfolding written
  on_events [] ws = (true, ws)
  on_events (ev ∷ events) ws =
      let (succeeds, after) =
        written ev.epollout (if ev.epollin then wslay.on_read ws else (true, ws)) in
      let rest = on_events events after in if succeeds then rest else (false, after)

  module _ (next : W → Outcome (ThreadEnd × W)) where
    watched : W → Option Events → Outcome (ThreadEnd × W)
    watched ws none = ok (exits, ws)
    watched ws (some events) = next ws

    waited_for : Bool → W → Option (List Events) → Outcome (ThreadEnd × W)
    unfolding watched ctl_epollev on_events
    waited_for modified ws none = ok (wait_failed, ws)
    waited_for modified ws (some events) =
        let (succeeds, after) = on_events events ws in
        if succeeds then watched after (ctl_epollev modified after) else ok (event_failed, after)

  unfoldable pub thread_loop : List Round → W → Outcome (ThreadEnd × W)
  unfolding waited_for
  thread_loop [] ws =
      if wslay.want_read ws || wslay.want_write ws then out_of_fuel else ok (finished, ws)
  thread_loop (round ∷ rounds) ws =
      let more = waited_for (λ after. thread_loop rounds after) round.modified ws round.waited in
      if wslay.want_read ws || wslay.want_write ws then more else ok (finished, ws)

  -- `created` is the result of `epoll_create`, `added` that of the first `epoll_ctl`.
  unfoldable pub websockets_thread : Bool → Bool → List Round → W → Outcome (ThreadEnd × W)
  unfolding watched ctl_epollev thread_loop
  websockets_thread created added rounds ws =
      if created
      then watched (λ after. thread_loop rounds after) ws (ctl_epollev added ws)
      else ok (no_epoll, ws)
