-- ===== src/Server/Tests.antt =====
-- main/main.c at small requests.
use mathlib.Core.Path.{refl, ◌≡◌}
use ken_code_de_bridge.Base.{
  Bytes, List, [], arith, codes, false, is_prefix, none, ok, replicate, some, true, ℕ, ◌++◌, ◌∷◌,
}
use ken_code_de_bridge.Fixtures.{small_micro, small_u64}
use ken_code_de_bridge.Book.{Market}
use ken_code_de_bridge.MarketCodec.Plain.{plain, plain-IsProtobuf}
use ken_code_de_bridge.Vendors.{Vendor}
use ken_code_de_bridge.Vendors.Sample.{
  both_plain, both_ready, first_vendor, listed, listed-IsKhash, second_vendor, two_vendors,
}
use ken_code_de_bridge.Server.{Answer, do_connect, read_request, silent, stops}
use ken_code_de_bridge.Server.Reads.{read_request-joined}
use ken_code_de_bridge.Memory.{Heap, Ptr}
use ken_code_de_bridge.Memory.Sample.{all_there-Allocated, one_entry, small_heap}
use ken_code_de_bridge.Server.Service.{Visit, main_service_connections, terminated, visit_answer}
use ken_code_de_bridge.Server.Service.Ends.{
  Quiet, accept, client, heap_at, listens, main_service_connections-Last, nothing, one,
}
use ken_code_de_bridge.Vendors.Firsts.{ListsPairs}
use ken_code_de_bridge.Server.Answers.{Reads, do_connect-trading_pairs}

abbrev full_read : Bytes
full_read = replicate 255 b'a'

read_request-joined_example :
    read_request (some full_read ∷ some (codes "bc") ∷ some (codes "d") ∷ []) []
    ≡ ok (full_read ++ codes "bc")
read_request-joined_example =
    read_request-joined (full_read ∷ []) (codes "bc") (some (codes "d") ∷ []) [] (refl, tt)
      (ground arith) (ground arith)

one_read : read_request (some (codes "trading_pairs") ∷ []) [] ≡ ok (codes "trading_pairs")
unfolding read_request
one_read = refl

one_asks : is_prefix (codes "trading_pairs") (codes "trading_pairs") ≡ true
unfolding is_prefix
one_asks = refl

do_connect-trading_pairs_example :
    (answer : Answer) × (do_connect small_micro plain listed two_vendors
        (some (codes "trading_pairs") ∷ [])
      ≡ ok answer)
    × ((pairs : List (Market ℕ)) × ListsPairs small_micro two_vendors both_ready pairs
        × Reads small_micro plain listed plain-IsProtobuf listed-IsKhash small_u64 pairs answer)
do_connect-trading_pairs_example =
    do_connect-trading_pairs small_micro plain listed plain-IsProtobuf listed-IsKhash small_u64
      two_vendors both_ready (some (codes "trading_pairs") ∷ []) b't' (codes "rading_pairs")
      both_plain one_read one_asks

abbrev vendor_blocks : List Ptr
vendor_blocks = 1 ∷ 3 ∷ 4 ∷ 2 ∷ 7 ∷ 6 ∷ 5 ∷ 8 ∷ 9 ∷ []

abbrev both_vendors : List (Vendor ℕ)
both_vendors = first_vendor ∷ second_vendor ∷ []

abbrev asking : Visit small_micro plain listed
asking = (both_vendors, some (codes "balances") ∷ [])

abbrev leaving : Visit small_micro plain listed
leaving = (both_vendors, some (codes "EXIT") ∷ [])

asking_answered : visit_answer small_micro plain listed asking ≡ ok silent
unfolding visit_answer
asking_answered = refl

leaving_answered : visit_answer small_micro plain listed leaving ≡ ok stops
unfolding visit_answer
leaving_answered = refl

asking-Quiet : Quiet (visit_answer small_micro plain listed) (asking ∷ [])
asking-Quiet = ((silent, asking_answered, refl), tt)

main_service_connections-Last_example :
    (g : Heap) × (main_service_connections small_micro plain listed 9 listens
        (accept false [] (some 5) true true
          ∷ accept false (asking ∷ []) (some 6) true true
          ∷ accept false (leaving ∷ []) none true true
          ∷ [])
        9
        small_heap
      ≡ ok (terminated, 5 ∷ 6 ∷ [], g))
    × ((a : Ptr) → g a ≡ heap_at terminated vendor_blocks small_heap a)
main_service_connections-Last_example =
    main_service_connections-Last small_micro plain listed 9
      (accept false [] (some 5) true true ∷ accept false (asking ∷ []) (some 6) true true ∷ [])
      (5 ∷ 6 ∷ []) (accept false (leaving ∷ []) none true true) terminated [] small_heap 9
      vendor_blocks (one tt (one asking-Quiet nothing)) (client [] leaving tt leaving_answered)
      one_entry (refl, (refl, (refl, (refl, (refl, (refl, (refl, (refl, (refl, tt)))))))))
      (all_there-Allocated vendor_blocks refl) (ground arith)
