-- ===== src/Memory.antt =====
-- The functions that give memory back: book_free and balance_free of book/book.c, market_free of
-- book/market.c, vendor_free and vendor_list_free of book/vendor.c, utils_https_free of utils/https.c.
-- A heap is the blocks that are allocated, by their addresses; 0 is NULL. Reading a block that is not
-- there, or freeing it, is a fault.
pub mod Release
pub mod Markets
pub mod Books
pub mod VendorLists
pub mod Connections
pub mod Sample
mod Tests
use ken_code_de_bridge.Base.{
  Bool, Option, Outcome, false, fault, if◌then◌else◌, none, ok, out_of_fuel, some, suc, true, zero,
  ℕ, ◌==◌, ◌>>=◌,
}

abbrev pub Ptr : Type 0
Ptr = ℕ

-- A block with its pointers; a name or another text has none.
pub data Block : Type 0 where
  chars : Block
  book : (next : Ptr) → Block
  balance : (currency : Ptr) → Block
  market : (market_name market_currency base_currency next : Ptr) → Block
  vendor : (name current_market : Ptr) → Block
  vendor_list : (vendor next : Ptr) → Block
  connection : (curl encoded_post_parameters post_parameters headers : Ptr) → Block

abbrev pub Heap : Type 0
Heap = Ptr → Option Block

abbrev pub erase : Ptr → Heap → Heap
erase p h a = if a == p then none else h a

freed : Ptr → Heap → Option Block → Outcome Heap
freed p h none = fault
freed p h (some block) = ok (erase p h)

-- `free`, which does nothing at NULL.
unfoldable pub free : Ptr → Heap → Outcome Heap
unfolding freed
free zero h = ok h
free (suc p) h = freed (suc p) h (h (suc p))

-- The pointers of a block of the right kind.
pub record MarketPtrs : Type 0 where
  pub market_name : Ptr
  pub market_currency : Ptr
  pub base_currency : Ptr
  pub next : Ptr

abbrev pub as_market : Option Block → Outcome MarketPtrs
as_market (some (market name quoted base next)) =
    ok (record { market_name = name; market_currency = quoted; base_currency = base; next = next })
as_market other = fault

abbrev pub as_book : Option Block → Outcome Ptr
as_book (some (book next)) = ok next
as_book other = fault

abbrev pub as_balance : Option Block → Outcome Ptr
as_balance (some (balance currency)) = ok currency
as_balance other = fault

abbrev pub as_vendor : Option Block → Outcome (Ptr × Ptr)
as_vendor (some (vendor name current_market)) = ok (name, current_market)
as_vendor other = fault

abbrev pub as_vendor_list : Option Block → Outcome (Ptr × Ptr)
as_vendor_list (some (vendor_list v next)) = ok (v, next)
as_vendor_list other = fault

abbrev pub as_connection : Option Block → Outcome (Ptr × Ptr × Ptr × Ptr)
as_connection (some (connection curl encoded post headers)) = ok (curl, encoded, post, headers)
as_connection other = fault

-- `current = next; if (current != NULL) next = current->next;`, which gives the new `next`.
unfoldable pub next_market : Ptr → Heap → Outcome Ptr
next_market zero h = ok 0
next_market (suc p) h = do m ← as_market (h (suc p)); ok m.next

-- The loop, on fuel.
unfoldable pub market_free_loop : ℕ → Ptr → Ptr → Heap → Outcome Heap
unfolding free next_market
market_free_loop fuel zero next h = ok h
market_free_loop zero (suc p) next h = out_of_fuel
market_free_loop (suc fuel) (suc p) next h = do
  a ← as_market (h (suc p))
  h1 ← free a.base_currency h
  b ← as_market (h1 (suc p))
  h2 ← free b.market_currency h1
  c ← as_market (h2 (suc p))
  h3 ← free c.market_name h2
  h4 ← free (suc p) h3
  after ← next_market next h4
  market_free_loop fuel next after h4

unfoldable pub market_free : ℕ → Ptr → Heap → Outcome Heap
unfolding market_free_loop
market_free fuel zero h = ok h
market_free fuel (suc p) h = do m ← as_market (h (suc p)); market_free_loop fuel (suc p) m.next h

unfoldable pub next_book : Ptr → Heap → Outcome Ptr
next_book zero h = ok 0
next_book (suc p) h = as_book (h (suc p))

unfoldable pub book_free_loop : ℕ → Ptr → Ptr → Heap → Outcome Heap
unfolding free next_book
book_free_loop fuel zero next h = ok h
book_free_loop zero (suc p) next h = out_of_fuel
book_free_loop (suc fuel) (suc p) next h = do
  h1 ← free (suc p) h
  after ← next_book next h1
  book_free_loop fuel next after h1

unfoldable pub book_free : ℕ → Ptr → Heap → Outcome Heap
unfolding book_free_loop
book_free fuel zero h = ok h
book_free fuel (suc p) h = do next ← as_book (h (suc p)); book_free_loop fuel (suc p) next h

unfoldable pub balance_free : Ptr → Heap → Outcome Heap
unfolding free
balance_free zero h = ok h
balance_free (suc p) h = do currency ← as_balance (h (suc p)); h1 ← free currency h; free (suc p) h1

-- The thread has ended when its vendor is read. The lists of markets get `fuel` each.
unfoldable pub vendor_free : ℕ → Ptr → Heap → Outcome Heap
unfolding free market_free
vendor_free fuel zero h = fault
vendor_free fuel (suc p) h = do
  v ← as_vendor (h (suc p))
  h1 ← free v.0 h
  w ← as_vendor (h1 (suc p))
  h2 ← market_free fuel w.1 h1
  free (suc p) h2

vendor_part : Bool → ℕ → Ptr → Heap → Outcome Heap
unfolding vendor_free
vendor_part true fuel v h = vendor_free fuel v h
vendor_part false fuel v h = ok h

unfoldable pub vendor_list_free : ℕ → ℕ → Ptr → Bool → Heap → Outcome Heap
unfolding vendor_part free
vendor_list_free fuel market_fuel zero free_vendor h = ok h
vendor_list_free zero market_fuel (suc p) free_vendor h = out_of_fuel
vendor_list_free (suc fuel) market_fuel (suc p) free_vendor h = do
  entry ← as_vendor_list (h (suc p))
  h1 ← vendor_part free_vendor market_fuel entry.0 h
  h2 ← free (suc p) h1
  vendor_list_free fuel market_fuel entry.1 free_vendor h2

-- What libcurl gives back for a handle, a text or a list of headers is one block of the heap.
unfoldable pub utils_https_free : Ptr → Heap → Outcome Heap
unfolding free
utils_https_free zero h = ok h
utils_https_free (suc p) h = do
  (curl, _, _, _) ← as_connection (h (suc p))
  h1 ← free curl h
  (_, encoded, _, _) ← as_connection (h1 (suc p))
  h2 ← free encoded h1
  (_, _, post, _) ← as_connection (h2 (suc p))
  h3 ← free post h2
  (_, _, _, headers) ← as_connection (h3 (suc p))
  h4 ← free headers h3
  free (suc p) h4
