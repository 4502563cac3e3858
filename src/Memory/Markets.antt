-- ===== src/Memory/Markets.antt =====
-- `market_free` gives back a list of markets.
use mathlib.Core.Path.{subst}
use ken_code_de_bridge.Base.{
  List, Outcome, [], ap, arith, if◌then◌else◌, length, length-append, none, ok, refl, some, suc,
  sym, true, zero, ℕ, ◌++◌, ◌∙◌, ◌∷◌, ◌≡◌, ◌≤◌,
}
use ken_code_de_bridge.Memory.{Heap, Ptr, free, market, market_free, market_free_loop, next_market}
use ken_code_de_bridge.Memory.Release.{
  Allocated, Distinct, free-one, has, has-behind, has-here, has-later, pointee, released,
  released-append, released-has,
}

-- The markets from a pointer on, with the addresses of their blocks, in the order of the frees.
pub data Markets (h : Heap) : Ptr → List Ptr → Type 0 where
  no_market : Markets h 0 []
  market_at :
      {p name quoted base next : Ptr} {rest : List Ptr}
      → h (suc p) ≡ some (market name quoted base next)
      → Markets h next rest
      → Markets h (suc p) (pointee base ++ (pointee quoted ++ (pointee name ++ (suc p ∷ rest))))

-- What stands behind the texts of a market.
has-tail :
    (a name quoted base : Ptr) (ps : List Ptr)
    → has a ps ≡ true
    → has a (pointee base ++ (pointee quoted ++ (pointee name ++ ps))) ≡ true
has-tail a name quoted base ps i =
    has-behind a (pointee base) _
      (has-behind a (pointee quoted) _ (has-behind a (pointee name) ps i))

pub Markets-same :
    {g h : Heap} {p : Ptr} {owned : List Ptr}
    → Markets h p owned
    → ((a : Ptr) → has a owned ≡ true → g a ≡ h a)
    → Markets g p owned
Markets-same no_market same = no_market
Markets-same (market_at {p} {name} {quoted} {base} {rest} e more) same =
    market_at (same (suc p) (has-tail (suc p) name quoted base _ (has-here (suc p) rest)) ∙ e) (
      Markets-same more
        (λ a i. same a (has-tail a name quoted base _ (has-later a (suc p) rest i))))

next-there :
    {h : Heap} {p : Ptr} {owned : List Ptr}
    → Markets h p owned
    → (after : Ptr) × (next_market p h ≡ ok after)
unfolding next_market
next-there no_market = (0, refl)
next-there (market_at {next} e more) = (next, rw e)

loop_round :
    (fuel p next name quoted base nx after : Ptr) (h h1 h2 h3 h4 : Heap)
    → h (suc p) ≡ some (market name quoted base nx)
    → free base h ≡ ok h1
    → h1 (suc p) ≡ some (market name quoted base nx)
    → free quoted h1 ≡ ok h2
    → h2 (suc p) ≡ some (market name quoted base nx)
    → free name h2 ≡ ok h3
    → free (suc p) h3 ≡ ok h4
    → next_market next h4 ≡ ok after
    → market_free_loop (suc fuel) (suc p) next h ≡ market_free_loop fuel next after h4
unfolding market_free_loop
loop_round fuel p next name quoted base nx after h h1 h2 h3 h4 e f e1 f1 e2 f2 f3 n =
    rw (e, f, e1, f1, e2, f2, f3, n)

cell_next :
    (h : Heap) (p name quoted base next : Ptr)
    → h (suc p) ≡ some (market name quoted base next)
    → next_market (suc p) h ≡ ok next
unfolding next_market
cell_next h p name quoted base next e = rw e

next_of_cell :
    (h : Heap) (p name quoted base nx next : Ptr)
    → h (suc p) ≡ some (market name quoted base nx)
    → next_market (suc p) h ≡ ok next
    → nx ≡ next
unfolding next_market
next_of_cell h p name quoted base nx next e n = same_ok nx next (rw e at n)
  where
    same_ok : (a b : Ptr) → Outcome.ok a ≡ ok b → a ≡ b
    same_ok a b e = cc e

length-tail :
    (p name quoted base : Ptr) (rest : List Ptr)
    → suc (length rest)
      ≤ length (pointee base ++ (pointee quoted ++ (pointee name ++ (suc p ∷ rest))))
length-tail p name quoted base rest = omega (
  arith,
  length-append (pointee base) (pointee quoted ++ (pointee name ++ (suc p ∷ rest))),
  length-append (pointee quoted) (pointee name ++ (suc p ∷ rest)),
  length-append (pointee name) (suc p ∷ rest),
)

released_tail :
    (p name quoted base : Ptr) (rest : List Ptr) (h : Heap)
    → released (pointee base ++ (pointee quoted ++ (pointee name ++ (suc p ∷ rest)))) h
      ≡ released rest (
          released
            (pointee (suc p))
            (released (pointee name) (released (pointee quoted) (released (pointee base) h))))
released_tail p name quoted base rest h =
    released-append (pointee base) (pointee quoted ++ (pointee name ++ (suc p ∷ rest))) h
    ∙ released-append (pointee quoted) (pointee name ++ (suc p ∷ rest)) (released (pointee base) h)
    ∙ released-append (pointee name) (suc p ∷ rest)
        (released (pointee quoted) (released (pointee base) h))

market_free_loop-released :
    (fuel : ℕ) {h : Heap} {p : Ptr} {owned : List Ptr} (next : Ptr)
    → Markets h p owned
    → next_market p h ≡ ok next
    → Distinct owned
    → Allocated h owned
    → length owned ≤ fuel
    → market_free_loop fuel p next h ≡ ok (released owned h)
market_free_loop-released fuel next no_market n distinct there enough =
    unfold market_free_loop in refl
market_free_loop-released zero next (market_at {p} {name} {quoted} {base} {rest} e more) n distinct
      there enough =
    absurd (omega (arith, length-tail p name quoted base rest))
market_free_loop-released (suc fuel) {h} next
      (market_at {p} {name} {quoted} {base} {next = nx} {rest} e more) n distinct there enough =
    let behind_base = pointee quoted ++ (pointee name ++ (suc p ∷ rest)) in
    let behind_quoted = pointee name ++ (suc p ∷ rest) in
    let (f1, d1, t1, s1) = free-one base behind_base h distinct there in
    let h1 = released (pointee base) h in
    let (f2, d2, t2, s2) = free-one quoted behind_quoted h1 d1 t1 in
    let h2 = released (pointee quoted) h1 in
    let (f3, d3, t3, s3) = free-one name (suc p ∷ rest) h2 d2 t2 in
    let h3 = released (pointee name) h2 in
    let (f4, d4, t4, s4) = free-one (suc p) rest h3 d3 t3 in
    let h4 = released (pointee (suc p)) h3 in
    let here = has-here (suc p) rest in
    let in_quoted = has-behind (suc p) (pointee name) (suc p ∷ rest) here in
    let in_base = has-behind (suc p) (pointee quoted) behind_quoted in_quoted in
    let e1 = s1 (suc p) in_base ∙ e in
    let e2 = s2 (suc p) in_quoted ∙ e1 in
    let same : (a : Ptr) → has a rest ≡ true → h4 a ≡ h a = λ a i.
      s4 a i
      ∙ s3 a (has-later a (suc p) rest i)
      ∙ s2 a (has-behind a (pointee name) _ (has-later a (suc p) rest i))
      ∙ s1 a (
          has-behind a (pointee quoted) _
            (has-behind a (pointee name) _ (has-later a (suc p) rest i))) in
    let left =
      subst (λ x. Markets h4 x rest) (next_of_cell h p name quoted base nx next e n)
        (Markets-same more same) in
    let (after, n4) = next-there left in
    loop_round fuel p next name quoted base nx after h h1 h2 h3 h4 e f1 e1 f2 e2 f3 f4 n4
    ∙ market_free_loop-released fuel after left n4 d4 t4
        (omega (arith, length-tail p name quoted base rest))
    ∙ ap ok (sym (released_tail p name quoted base rest h))

start_round :
    (fuel p next name quoted base : Ptr) (h : Heap)
    → h (suc p) ≡ some (market name quoted base next)
    → market_free fuel (suc p) h ≡ market_free_loop fuel (suc p) next h
unfolding market_free
start_round fuel p next name quoted base h e = rw e

pub start :
    (fuel : ℕ) (h : Heap) (p : Ptr) (owned : List Ptr)
    → Markets h p owned
    → Distinct owned
    → Allocated h owned
    → length owned ≤ fuel
    → market_free fuel p h ≡ ok (released owned h)
unfolding market_free
start fuel h zero owned no_market distinct there enough = refl
start fuel h (suc p) owned (market_at {name} {quoted} {base} {next} {rest} e more) distinct there
      enough =
    start_round fuel p next name quoted base h e
    ∙ market_free_loop-released fuel next (market_at e more) (cell_next h p name quoted base next e)
        distinct there enough

-- A list of markets whose blocks, names included, are allocated and distinct is freed as a whole: no
-- block is read after it is freed or freed twice, all blocks of the list are gone, and all others
-- stay as they were.
pub market_free-released :
    (fuel : ℕ) (h : Heap) (p : Ptr) (owned : List Ptr)
    → Markets h p owned
    → Distinct owned
    → Allocated h owned
    → length owned ≤ fuel
    → (g : Heap) × (market_free fuel p h ≡ ok g)
      × ((a : Ptr) → g a ≡ (if has a owned then none else h a))
market_free-released fuel h p owned list distinct there enough =
    (released owned h, start fuel h p owned list distinct there enough, λ a. released-has a owned h)
