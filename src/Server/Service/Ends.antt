-- ===== src/Server/Service/Ends.antt =====
-- How the server ends.
use ken_code_de_bridge.Base.{
  Bool, Floats, List, Option, Outcome, [], append-nil, append_assoc, false, if◌then◌else◌, length,
  none, ok, refl, some, true, ℕ, ◌++◌, ◌∙◌, ◌∷◌, ◌≡◌, ◌≤◌,
}
use ken_code_de_bridge.Book.{Market}
use ken_code_de_bridge.MarketCodec.{Protobuf}
use ken_code_de_bridge.Vendors.{Khash}
use ken_code_de_bridge.Memory.{Heap, Ptr}
use ken_code_de_bridge.Memory.Release.{Allocated, Distinct, has}
use ken_code_de_bridge.Memory.VendorLists.{Entries, vendor_list_free-released}
use ken_code_de_bridge.Server.{Answer, stops}
use ken_code_de_bridge.Server.Service.{
  Accept, Ending, Listening, Visit, accepted, exits, finished, is_stop, main_service_connections,
  returns, served_by, service_loop, stopped, terminate, terminated, visit_answer,
}

module _ {C : Type 0} where
  abbrev pub accept : Bool → List C → Option ℕ → Bool → Bool → Accept C
  accept signalled ended newsockfd memory thread_created = record {
    signalled = signalled;
    ended = ended;
    newsockfd = newsockfd;
    memory = memory;
    thread_created = thread_created;
  }

module _ {C : Type 0} (handles : C → Outcome Answer) where
  -- Connections that are handled, and that do not stop the server.
  abbrev pub Quiet : List C → Type 0
  Quiet [] = Unit
  Quiet (c ∷ ended) =
      ((answer : Answer) × (handles c ≡ ok answer) × (is_stop answer ≡ false)) × Quiet ended

  -- Connections that get a thread each, while only such ones come to their end.
  pub data Served : List (Accept C) → List ℕ → Type 0 where
    nothing : Served [] []
    one :
        {fd : ℕ} {ended : List C} {accepts : List (Accept C)} {fds : List ℕ}
        → Quiet ended
        → Served accepts fds
        → Served (accept false ended (some fd) true true ∷ accepts) (fd ∷ fds)

  -- What ends the loop.
  pub data Last : Accept C → Ending → Type 0 where
    signal :
        {ended : List C} {newsockfd : Option ℕ} {memory thread_created : Bool}
        → Quiet ended
        → Last (accept true ended newsockfd memory thread_created) terminated
    client :
        (quiet : List C) (c : C) {newsockfd : Option ℕ} {memory thread_created : Bool}
        → Quiet quiet
        → handles c ≡ ok stops
        → Last (accept false (quiet ++ c ∷ []) newsockfd memory thread_created) terminated
    refused :
        {ended : List C} {memory thread_created : Bool}
        → Quiet ended
        → Last (accept false ended none memory thread_created) exits
    no_memory :
        {ended : List C} {fd : ℕ} {thread_created : Bool}
        → Quiet ended
        → Last (accept false ended (some fd) false thread_created) returns
    no_thread :
        {ended : List C} {fd : ℕ}
        → Quiet ended
        → Last (accept false ended (some fd) true false) terminated

  stopped-Quiet : (ended : List C) → Quiet ended → stopped handles ended ≡ ok false
  unfolding stopped
  stopped-Quiet [] quiet = refl
  stopped-Quiet (c ∷ ended) ((answer, e, n), quiet) = rw (e, stopped-Quiet ended quiet, n)

  stopped_at_last :
      (ended : List C) (c : C)
      → Quiet ended
      → handles c ≡ ok stops
      → stopped handles (ended ++ c ∷ []) ≡ ok true
  unfolding stopped
  stopped_at_last [] c quiet h = rw h
  stopped_at_last (d ∷ ended) c ((answer, e, n), quiet) h =
      rw (e, stopped_at_last ended c quiet h, n)

  over_now :
      (accepts : List (Accept C)) (served : List ℕ)
      → service_loop handles accepts false served ≡ ok (terminated, served)
  unfolding service_loop
  over_now [] served = refl
  over_now (a ∷ accepts) served = refl

  end_of_loop :
      {last : Accept C} {ending : Ending} (later : List (Accept C)) (served : List ℕ)
      → Last last ending
      → service_loop handles (last ∷ later) true served ≡ ok (ending, served)
  unfolding service_loop accepted served_by terminate
  end_of_loop later served (signal {ended} quiet) =
      rw (stopped-Quiet ended quiet) (over_now later served)
  end_of_loop later served (client quiet c q h) =
      rw (stopped_at_last quiet c q h) (over_now later served)
  end_of_loop later served (refused {ended} quiet) = rw (stopped-Quiet ended quiet)
  end_of_loop later served (no_memory {ended} quiet) = rw (stopped-Quiet ended quiet)
  end_of_loop later served (no_thread {ended} quiet) =
      rw (stopped-Quiet ended quiet) (over_now later served)

  accepted_round :
      (fd : ℕ) (ended : List C) (accepts : List (Accept C)) (served : List ℕ)
      → Quiet ended
      → service_loop handles (accept false ended (some fd) true true ∷ accepts) true served
        ≡ service_loop handles accepts true (served ++ fd ∷ [])
  unfolding service_loop accepted served_by
  accepted_round fd ended accepts served quiet = rw (stopped-Quiet ended quiet)

  service_loop-Last :
      {accepts : List (Accept C)} {fds : List ℕ} (served : List ℕ) {last : Accept C}
      {ending : Ending} (later : List (Accept C))
      → Served accepts fds
      → Last last ending
      → service_loop handles (accepts ++ last ∷ later) true served ≡ ok (ending, served ++ fds)
  service_loop-Last served later nothing ends = end_of_loop later served ends ∙ rw append-nil
  service_loop-Last served later (one {fd} {ended} {fds} quiet more) ends =
      accepted_round fd ended _ served quiet
      ∙ service_loop-Last (served ++ fd ∷ []) later more ends
      ∙ rw (append_assoc served (fd ∷ []) fds)

-- What the heap holds at the end: only a server that terminates frees its vendors.
abbrev pub heap_at : Ending → List Ptr → Heap → Heap
heap_at terminated owned h = λ a. if has a owned then none else h a
heap_at ending owned h = h

abbrev pub listens : Listening
listens = record { opened_socket = true; reused = true; bound = true }

finish :
    (fuel : ℕ) (h : Heap) (p : Ptr) (owned : List Ptr) (ending : Ending) (fds : List ℕ)
    → Entries h p owned
    → Distinct owned
    → Allocated h owned
    → length owned ≤ fuel
    → (g : Heap) × (finished fuel p h (ending, fds) ≡ ok (ending, fds, g))
      × ((a : Ptr) → g a ≡ heap_at ending owned h a)
unfolding finished
finish fuel h p owned terminated fds entries distinct there enough =
    let (g, e, left) =
      vendor_list_free-released fuel fuel h p owned entries distinct there enough enough in
    (g, rw e, left)
finish fuel h p owned exits fds entries distinct there enough = (h, refl, λ a. refl)
finish fuel h p owned returns fds entries distinct there enough = (h, refl, λ a. refl)

module _ {D : Type 0} (floats : Floats D) (pb : Protobuf) (khash : Khash (Market D)) where
  service_round :
      (fuel : ℕ) (accepts : List (Accept (Visit floats pb khash))) (p : Ptr) (h : Heap)
      (over : Ending × List ℕ)
      → service_loop (visit_answer floats pb khash) accepts true [] ≡ ok over
      → main_service_connections floats pb khash fuel listens accepts p h ≡ finished fuel p h over
  unfolding main_service_connections
  service_round fuel accepts p h over e = rw e

  -- The server gives a thread to each connection that it accepts, in order, until SIGTERM comes, a
  -- client has sent "EXIT", or a connection, its memory or its thread fails, and to none behind that,
  -- if all other connections are handled without a fault. It ends in each of these cases, and but for
  -- a failed connection or memory it has freed the blocks of its vendors, each once, and nothing
  -- else. These blocks are allocated and distinct.
  pub main_service_connections-Last :
      (fuel : ℕ) (accepts : List (Accept (Visit floats pb khash))) (fds : List ℕ)
      (last : Accept (Visit floats pb khash)) (ending : Ending)
      (later : List (Accept (Visit floats pb khash))) (h : Heap) (p : Ptr) (owned : List Ptr)
      → Served (visit_answer floats pb khash) accepts fds
      → Last (visit_answer floats pb khash) last ending
      → Entries h p owned
      → Distinct owned
      → Allocated h owned
      → length owned ≤ fuel
      → (g : Heap) × (main_service_connections floats pb khash fuel listens
            (accepts ++ last ∷ later)
            p
            h
          ≡ ok (ending, fds, g))
        × ((a : Ptr) → g a ≡ heap_at ending owned h a)
  main_service_connections-Last fuel accepts fds last ending later h p owned served ends entries
        distinct there enough =
      let (g, e, left) = finish fuel h p owned ending fds entries distinct there enough in
      (
        g,
        service_round fuel (accepts ++ last ∷ later) p h (ending, fds)
              (service_loop-Last (visit_answer floats pb khash) [] later served ends)
            ∙ e,
        left,
      )
