-- ===== src/Memory/Books.antt =====
-- `book_free` gives back a list of entries, and `balance_free` a balance.
use mathlib.Core.Path.{subst}
use ken_code_de_bridge.Base.{
  List, Outcome, [], ap, arith, if◌then◌else◌, length, none, ok, refl, some, suc, sym, true, zero,
  ℕ, ◌++◌, ◌∙◌, ◌∷◌, ◌≡◌, ◌≤◌,
}
use ken_code_de_bridge.Memory.{
  Heap, Ptr, balance, balance_free, book, book_free, book_free_loop, erase, free, next_book,
}
use ken_code_de_bridge.Memory.Release.{
  Allocated, Distinct, free-one, has, has-here, has-later, pointee, released, released-append,
  released-has,
}

-- The entries from a pointer on, by their addresses.
pub data Books (h : Heap) : Ptr → List Ptr → Type 0 where
  no_book : Books h 0 []
  book_at :
      {p next : Ptr} {rest : List Ptr}
      → h (suc p) ≡ some (book next)
      → Books h next rest
      → Books h (suc p) (suc p ∷ rest)

Books-same :
    {g h : Heap} {p : Ptr} {owned : List Ptr}
    → Books h p owned
    → ((a : Ptr) → has a owned ≡ true → g a ≡ h a)
    → Books g p owned
Books-same no_book same = no_book
Books-same (book_at {p} {rest} e more) same =
    book_at (same (suc p) (has-here (suc p) rest) ∙ e)
      (Books-same more (λ a i. same a (has-later a (suc p) rest i)))

next-book :
    {h : Heap} {p : Ptr} {owned : List Ptr}
    → Books h p owned
    → (after : Ptr) × (next_book p h ≡ ok after)
unfolding next_book
next-book no_book = (0, refl)
next-book (book_at {next} e more) = (next, rw e)

book_round :
    (fuel p next after : Ptr) (h h1 : Heap)
    → free (suc p) h ≡ ok h1
    → next_book next h1 ≡ ok after
    → book_free_loop (suc fuel) (suc p) next h ≡ book_free_loop fuel next after h1
unfolding book_free_loop
book_round fuel p next after h h1 f n = rw (f, n)

next_of_book :
    (h : Heap) (p nx next : Ptr)
    → h (suc p) ≡ some (book nx)
    → next_book (suc p) h ≡ ok next
    → nx ≡ next
unfolding next_book
next_of_book h p nx next e n = same_ok nx next (rw e at n)
  where
    same_ok : (a b : Ptr) → Outcome.ok a ≡ ok b → a ≡ b
    same_ok a b e = cc e

book_free_loop-released :
    (fuel : ℕ) {h : Heap} {p : Ptr} {owned : List Ptr} (next : Ptr)
    → Books h p owned
    → next_book p h ≡ ok next
    → Distinct owned
    → Allocated h owned
    → length owned ≤ fuel
    → book_free_loop fuel p next h ≡ ok (released owned h)
book_free_loop-released fuel next no_book n distinct there enough = unfold book_free_loop in refl
book_free_loop-released zero next (book_at e more) n distinct there enough = absurd (omega arith)
book_free_loop-released (suc fuel) {h} next (book_at {p} {next = nx} {rest} e more) n distinct there
      enough =
    let (f, d, t, s) = free-one (suc p) rest h distinct there in
    let h1 = erase (suc p) h in
    let left = subst (λ x. Books h1 x rest) (next_of_book h p nx next e n) (Books-same more s) in
    let (after, n1) = next-book left in
    book_round fuel p next after h h1 f n1
    ∙ book_free_loop-released fuel after left n1 d t (omega arith)

first_next :
    (h : Heap) (p next : Ptr) → h (suc p) ≡ some (book next) → next_book (suc p) h ≡ ok next
unfolding next_book
first_next h p next e = rw e

first_round :
    (fuel p next : Ptr) (h : Heap)
    → h (suc p) ≡ some (book next)
    → book_free fuel (suc p) h ≡ book_free_loop fuel (suc p) next h
unfolding book_free
first_round fuel p next h e = rw e

all_freed :
    (fuel : ℕ) (h : Heap) (p : Ptr) (owned : List Ptr)
    → Books h p owned
    → Distinct owned
    → Allocated h owned
    → length owned ≤ fuel
    → book_free fuel p h ≡ ok (released owned h)
unfolding book_free
all_freed fuel h zero owned no_book distinct there enough = refl
all_freed fuel h (suc p) owned (book_at {next} e more) distinct there enough =
    first_round fuel p next h e
    ∙ book_free_loop-released fuel next (book_at e more) (first_next h p next e) distinct there
        enough

balance_round :
    (p currency : Ptr) (h h1 h2 : Heap)
    → h (suc p) ≡ some (balance currency)
    → free currency h ≡ ok h1
    → free (suc p) h1 ≡ ok h2
    → balance_free (suc p) h ≡ ok h2
unfolding balance_free
balance_round p currency h h1 h2 e f f1 = rw (e, f, f1)

balance_released :
    (p currency : Ptr) (h : Heap)
    → h (suc p) ≡ some (balance currency)
    → Distinct (pointee currency ++ (suc p ∷ []))
    → Allocated h (pointee currency ++ (suc p ∷ []))
    → balance_free (suc p) h ≡ ok (released (pointee currency ++ (suc p ∷ [])) h)
balance_released p currency h e distinct there =
    let (f, d, t, s) = free-one currency (suc p ∷ []) h distinct there in
    let (f1, d1, t1, s1) = free-one (suc p) [] (released (pointee currency) h) d t in
    balance_round p currency h _ _ e f f1
    ∙ ap ok (sym (released-append (pointee currency) (suc p ∷ []) h))

-- A book whose entries are allocated and distinct, and a balance whose two blocks are, are freed as a
-- whole: no block is read after it is freed or freed twice, these blocks are gone, and all others stay
-- as they were.
pub frees-released :
    (fuel : ℕ) (h : Heap) (p q currency : Ptr) (owned : List Ptr)
    → Books h p owned
    → Distinct owned
    → Allocated h owned
    → length owned ≤ fuel
    → h (suc q) ≡ some (balance currency)
    → Distinct (pointee currency ++ (suc q ∷ []))
    → Allocated h (pointee currency ++ (suc q ∷ []))
    → ((g : Heap) × (book_free fuel p h ≡ ok g)
        × ((a : Ptr) → g a ≡ (if has a owned then none else h a)))
      × ((g : Heap) × (balance_free (suc q) h ≡ ok g)
          × ((a : Ptr) → g a ≡ (if has a (pointee currency ++ (suc q ∷ [])) then none else h a)))
frees-released fuel h p q currency owned books distinct there enough e both there_both = (
  (
    released owned h,
    all_freed fuel h p owned books distinct there enough,
    λ a. released-has a owned h,
  ),
  (
    released (pointee currency ++ (suc q ∷ [])) h,
    balance_released q currency h e both there_both,
    λ a. released-has a (pointee currency ++ (suc q ∷ [])) h,
  ),
)
