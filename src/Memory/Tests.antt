-- ===== src/Memory/Tests.antt =====
-- The functions that free, on a small heap.
use mathlib.Core.Path.{refl}
use ken_code_de_bridge.Base.{[], arith, fault, if◌then◌else◌, none, ok, true, ◌>>=◌, ◌∷◌, ◌≡◌}
use ken_code_de_bridge.Memory.{
  Heap, Ptr, balance_free, book_free, free, market_free, vendor_list_free,
}
use ken_code_de_bridge.Memory.Release.{has}
use ken_code_de_bridge.Memory.Markets.{market_free-released}
use ken_code_de_bridge.Memory.Books.{frees-released}
use ken_code_de_bridge.Memory.VendorLists.{vendor_list_free-released}
use ken_code_de_bridge.Memory.Sample.{
  all_there-Allocated, one_entry, small_heap, two-Books, two-Markets,
}

market_free-released_example :
    (g : Heap) × (market_free 6 2 small_heap ≡ ok g)
    × ((a : Ptr) → g a ≡ (if has a (3 ∷ 4 ∷ 2 ∷ 7 ∷ 6 ∷ 5 ∷ []) then none else small_heap a))
market_free-released_example =
    market_free-released 6 small_heap 2 (3 ∷ 4 ∷ 2 ∷ 7 ∷ 6 ∷ 5 ∷ []) two-Markets
      (refl, (refl, (refl, (refl, (refl, (refl, tt))))))
      (all_there-Allocated (3 ∷ 4 ∷ 2 ∷ 7 ∷ 6 ∷ 5 ∷ []) refl) (ground arith)

vendor_list_free-released_example :
    (g : Heap) × (vendor_list_free 9 9 9 true small_heap ≡ ok g)
    × ((a : Ptr)
        → g a ≡ (if has a (1 ∷ 3 ∷ 4 ∷ 2 ∷ 7 ∷ 6 ∷ 5 ∷ 8 ∷ 9 ∷ []) then none else small_heap a))
vendor_list_free-released_example =
    vendor_list_free-released 9 9 small_heap 9 (1 ∷ 3 ∷ 4 ∷ 2 ∷ 7 ∷ 6 ∷ 5 ∷ 8 ∷ 9 ∷ []) one_entry
      (refl, (refl, (refl, (refl, (refl, (refl, (refl, (refl, (refl, tt)))))))))
      (all_there-Allocated (1 ∷ 3 ∷ 4 ∷ 2 ∷ 7 ∷ 6 ∷ 5 ∷ 8 ∷ 9 ∷ []) refl) (ground arith)
      (ground arith)

frees-released_example :
    ((g : Heap) × (book_free 2 10 small_heap ≡ ok g)
      × ((a : Ptr) → g a ≡ (if has a (10 ∷ 11 ∷ []) then none else small_heap a)))
    × ((g : Heap) × (balance_free 12 small_heap ≡ ok g)
        × ((a : Ptr) → g a ≡ (if has a (13 ∷ 12 ∷ []) then none else small_heap a)))
frees-released_example =
    frees-released 2 small_heap 10 11 13 (10 ∷ 11 ∷ []) two-Books (refl, (refl, tt))
      (all_there-Allocated (10 ∷ 11 ∷ []) refl) (ground arith) refl (refl, (refl, tt))
      (all_there-Allocated (13 ∷ 12 ∷ []) refl)

-- A second free of a block is a fault.
freed_twice : (free 1 small_heap >>= free 1) ≡ fault
unfolding free
freed_twice = refl
