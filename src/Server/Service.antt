-- ===== src/Server/Service.antt =====
-- main/main.c: the loop that accepts connections, up to the end of the server. `run` is cleared by
-- SIGTERM, and by a client that sends "EXIT", in the thread of its connection.
pub mod Ends
use ken_code_de_bridge.Base.{
  Bool, Bytes, Floats, List, Option, Outcome, [], false, if◌then◌else◌, none, ok, out_of_fuel, some,
  true, ℕ, ◌&&◌, ◌++◌, ◌>>=◌, ◌||◌, ◌∷◌,
}
use ken_code_de_bridge.Book.{Market}
use ken_code_de_bridge.MarketCodec.{Protobuf}
use ken_code_de_bridge.Vendors.{Khash, Vendor}
use ken_code_de_bridge.Memory.{Heap, Ptr, vendor_list_free}
use ken_code_de_bridge.Server.{Answer, do_connect, stops}

-- What happens up to the test of `run` behind an `accept`, and behind it: whether SIGTERM comes, and
-- the connections `C` whose threads come to their end. `newsockfd` is nothing for -1.
pub record Accept (C : Type 0) : Type 0 where
  pub signalled : Bool
  pub ended : List C
  pub newsockfd : Option ℕ
  pub memory : Bool
  pub thread_created : Bool

-- `exits` is `error`, which ends the program; `returns` is the return without memory.
pub data Ending : Type 0 where
  exits : Ending
  returns : Ending
  terminated : Ending

-- `terminate`
unfoldable pub terminate : Bool → Bool
terminate run = false

abbrev pub is_stop : Answer → Bool
is_stop stops = true
is_stop other = false

module _ {C : Type 0} (handles : C → Outcome Answer) where
  -- Whether one of the connections has cleared `run`.
  unfoldable pub stopped : List C → Outcome Bool
  stopped [] = ok false
  stopped (c ∷ ended) = do answer ← handles c; later ← stopped ended; ok (is_stop answer || later)

  module _ (next : Bool → List ℕ → Outcome (Ending × List ℕ)) where
    served_by : ℕ → Bool → Bool → List ℕ → Outcome (Ending × List ℕ)
    served_by fd false thread_created served = ok (returns, served)
    served_by fd true false served = next false served
    served_by fd true true served = next true (served ++ fd ∷ [])

    accepted : Option ℕ → Bool → Bool → List ℕ → Outcome (Ending × List ℕ)
    unfolding served_by
    accepted none memory thread_created served = ok (exits, served)
    accepted (some fd) memory thread_created served = served_by fd memory thread_created served

  -- `while(run)`, with the connections that have got a thread.
  unfoldable pub service_loop : List (Accept C) → Bool → List ℕ → Outcome (Ending × List ℕ)
  unfolding accepted terminate stopped
  service_loop accepts false served = ok (terminated, served)
  service_loop [] true served = out_of_fuel
  service_loop (a ∷ accepts) true served =
      let over = service_loop accepts (terminate true) served in
      let more =
        accepted (λ run sockets. service_loop accepts run sockets) a.newsockfd a.memory
          a.thread_created served in
      do by_client ← stopped a.ended; if a.signalled || by_client then over else more

-- The results of `socket`, `setsockopt` and `bind`.
pub record Listening : Type 0 where
  pub opened_socket : Bool
  pub reused : Bool
  pub bound : Bool

finished : ℕ → Ptr → Heap → Ending × List ℕ → Outcome (Ending × List ℕ × Heap)
unfolding vendor_list_free
finished fuel vendor_list_head h (terminated, served) = do
  after ← vendor_list_free fuel fuel vendor_list_head true h
  ok (terminated, served, after)
finished fuel vendor_list_head h (ending, served) = ok (ending, served, h)

module _ {D : Type 0} (floats : Floats D) (pb : Protobuf) (khash : Khash (Market D)) where
  -- A connection is the vendors as its thread finds them, and its reads.
  abbrev pub Visit : Type 0
  Visit = List (Vendor D) × List (Option Bytes)

  unfoldable pub visit_answer : Visit → Outcome Answer
  unfolding do_connect
  visit_answer (vendors, reads) = do_connect floats pb khash vendors reads

  -- The vendors are freed behind the loop.
  unfoldable pub main_service_connections :
      ℕ → Listening → List (Accept Visit) → Ptr → Heap → Outcome (Ending × List ℕ × Heap)
  unfolding finished service_loop visit_answer
  main_service_connections fuel listening accepts vendor_list_head h =
      if listening.opened_socket && (listening.reused && listening.bound)
      then (do
        over ← service_loop visit_answer accepts true []
        finished fuel vendor_list_head h over)
      else ok (exits, [], h)
