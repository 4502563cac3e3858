-- ===== src/Memory/Sample.antt =====
-- A small heap, for the tests.
use mathlib.Core.Path.{refl}
use ken_code_de_bridge.Base.{
  Bool, List, Option, [], arith, false, get_elem?, none, some, suc, true, zero, ◌&&◌, ◌<◌, ◌∷◌, ◌≡◌,
  ◌≢◌,
}
use ken_code_de_bridge.Memory.{Block, Heap, Ptr, balance, book, chars, market, vendor, vendor_list}
use ken_code_de_bridge.Memory.Release.{Allocated}
use ken_code_de_bridge.Memory.Markets.{Markets, market_at, no_market}
use ken_code_de_bridge.Memory.Books.{Books, book_at, no_book}
use ken_code_de_bridge.Memory.VendorLists.{Entries, entry_at, no_entry}

-- Two markets, of which one has no name, of a vendor in a list, a book of two entries, a balance.
abbrev pub blocks : List Block
blocks =
    chars
    ∷ market 0 4 3 5
    ∷ chars
    ∷ chars
    ∷ market 6 0 7 0
    ∷ chars
    ∷ chars
    ∷ vendor 1 2
    ∷ vendor_list 8 0
    ∷ book 11
    ∷ book 0
    ∷ balance 13
    ∷ chars
    ∷ []

abbrev pub heap_of : List Block → Heap
heap_of cells zero = none
heap_of cells (suc a) = get_elem? cells a

abbrev pub small_heap : Heap
small_heap = heap_of blocks

pub two-Markets : Markets small_heap 2 (3 ∷ 4 ∷ 2 ∷ 7 ∷ 6 ∷ 5 ∷ [])
two-Markets = market_at refl (market_at refl no_market)

pub one_entry : Entries small_heap 9 (1 ∷ 3 ∷ 4 ∷ 2 ∷ 7 ∷ 6 ∷ 5 ∷ 8 ∷ 9 ∷ [])
one_entry = entry_at refl refl two-Markets no_entry

pub two-Books : Books small_heap 10 (10 ∷ 11 ∷ [])
two-Books = book_at refl (book_at refl no_book)

abbrev pub is_there : Ptr → Option Block → Bool
is_there zero block = false
is_there (suc p) none = false
is_there (suc p) (some block) = true

abbrev pub all_there : List Ptr → Bool
all_there [] = true
all_there (p ∷ ps) = is_there p (small_heap p) && all_there ps

both_true : (a b : Bool) → (a && b) ≡ true → (a ≡ true) × (b ≡ true)
both_true true b e = (refl, e)
both_true false b e = cc e

is_there-Allocated :
    (p : Ptr) (block : Option Block) → is_there p block ≡ true → (0 < p) × (block ≢ none)
is_there-Allocated zero block e = cc e
is_there-Allocated (suc p) none e = cc e
is_there-Allocated (suc p) (some block) e = (omega arith, λ n. cc n)

pub all_there-Allocated : (ps : List Ptr) → all_there ps ≡ true → Allocated small_heap ps
all_there-Allocated [] e = tt
all_there-Allocated (p ∷ ps) e =
    let (first, others) = both_true (is_there p (small_heap p)) (all_there ps) e in
    let (some_ptr, there) = is_there-Allocated p (small_heap p) first in
    (some_ptr, (there, all_there-Allocated ps others))
