-- ===== src/Memory/VendorLists.antt =====
-- `vendor_list_free` gives back a list of vendors, with the vendors and their markets.
use ken_code_de_bridge.Base.{
  List, [], ap, arith, if◌then◌else◌, length, length-append, none, ok, refl, some, suc, sym, true,
  zero, ℕ, ◌++◌, ◌+◌, ◌∙◌, ◌∷◌, ◌≡◌, ◌≤◌,
}
use ken_code_de_bridge.Memory.{
  Heap, Ptr, erase, free, market_free, vendor, vendor_free, vendor_list, vendor_list_free,
  vendor_part,
}
use ken_code_de_bridge.Memory.Release.{
  Allocated, Distinct, free-one, has, has-behind, has-front, has-here, has-later, less, pointee,
  released, released-append, released-has,
}
use ken_code_de_bridge.Memory.Markets.{Markets, Markets-same, start}

-- The entries from a pointer on, with the addresses of all their blocks, in the order of the frees.
pub data Entries (h : Heap) : Ptr → List Ptr → Type 0 where
  no_entry : Entries h 0 []
  entry_at :
      {p v name current_market next : Ptr} {markets rest : List Ptr}
      → h (suc p) ≡ some (vendor_list (suc v) next)
      → h (suc v) ≡ some (vendor name current_market)
      → Markets h current_market markets
      → Entries h next rest
      → Entries h (suc p) (pointee name ++ (markets ++ (suc v ∷ suc p ∷ rest)))

has-last :
    (a name : Ptr) (markets ps : List Ptr)
    → has a ps ≡ true
    → has a (pointee name ++ (markets ++ ps)) ≡ true
has-last a name markets ps i = has-behind a (pointee name) _ (has-behind a markets ps i)

Entries-same :
    {g h : Heap} {p : Ptr} {owned : List Ptr}
    → Entries h p owned
    → ((a : Ptr) → has a owned ≡ true → g a ≡ h a)
    → Entries g p owned
Entries-same no_entry same = no_entry
Entries-same (entry_at {p} {v} {name} {markets} {rest} e ev ms more) same =
    entry_at
      (same (suc p) (
          has-last (suc p) name markets _
            (has-later (suc p) (suc v) (suc p ∷ rest) (has-here (suc p) rest)))
        ∙ e)
      (same (suc v) (has-last (suc v) name markets _ (has-here (suc v) (suc p ∷ rest))) ∙ ev)
      (Markets-same ms (λ a i.
        same a (has-behind a (pointee name) _ (has-front a markets (suc v ∷ suc p ∷ rest) i))))
      (Entries-same more (λ a i. same a (
        has-last a name markets _
          (has-later a (suc v) (suc p ∷ rest) (has-later a (suc p) rest i)))))

vendor_round :
    (fuel v name current_market : Ptr) (h h1 h2 h3 : Heap)
    → h (suc v) ≡ some (vendor name current_market)
    → free name h ≡ ok h1
    → h1 (suc v) ≡ some (vendor name current_market)
    → market_free fuel current_market h1 ≡ ok h2
    → free (suc v) h2 ≡ ok h3
    → vendor_free fuel (suc v) h ≡ ok h3
unfolding vendor_free
vendor_round fuel v name current_market h h1 h2 h3 e f e1 f1 f2 = rw (e, f, e1, f1, f2)

entry_round :
    (fuel market_fuel p v next : Ptr) (h h1 h2 : Heap)
    → h (suc p) ≡ some (vendor_list (suc v) next)
    → vendor_free market_fuel (suc v) h ≡ ok h1
    → free (suc p) h1 ≡ ok h2
    → vendor_list_free (suc fuel) market_fuel (suc p) true h
      ≡ vendor_list_free fuel market_fuel next true h2
unfolding vendor_list_free vendor_part
entry_round fuel market_fuel p v next h h1 h2 e f f1 = rw (e, f, f1)

length-last :
    (p v name : Ptr) (markets rest : List Ptr)
    → suc (length rest) + length markets
      ≤ length (pointee name ++ (markets ++ (suc v ∷ suc p ∷ rest)))
length-last p v name markets rest = omega (
  arith,
  length-append (pointee name) (markets ++ (suc v ∷ suc p ∷ rest)),
  length-append markets (suc v ∷ suc p ∷ rest),
)

all_given_back :
    (fuel market_fuel : ℕ) {h : Heap} {p : Ptr} {owned : List Ptr}
    → Entries h p owned
    → Distinct owned
    → Allocated h owned
    → length owned ≤ fuel
    → length owned ≤ market_fuel
    → vendor_list_free fuel market_fuel p true h ≡ ok (released owned h)
all_given_back fuel market_fuel no_entry distinct there enough each =
    unfold vendor_list_free in refl
all_given_back zero market_fuel (entry_at {p} {v} {name} {markets} {rest} e ev ms more) distinct
      there enough each =
    absurd (omega (arith, length-last p v name markets rest))
all_given_back (suc fuel) market_fuel {h}
      (entry_at {p} {v} {name} {current_market} {next} {markets} {rest} e ev ms more) distinct there
      enough each =
    let behind = markets ++ (suc v ∷ suc p ∷ rest) in
    let lengths = length-last p v name markets rest in
    let (f1, d1, t1, s1) = free-one name behind h distinct there in
    let h1 = released (pointee name) h in
    let (dm, tm, d2, t2, s2) = less markets (suc v ∷ suc p ∷ rest) h1 d1 t1 in
    let h2 = released markets h1 in
    let f2 =
      start market_fuel h1 current_market markets
        (Markets-same ms (λ a i. s1 a (has-front a markets (suc v ∷ suc p ∷ rest) i))) dm tm
        (omega (arith, lengths)) in
    let (f3, d3, t3, s3) = free-one (suc v) (suc p ∷ rest) h2 d2 t2 in
    let h3 = erase (suc v) h2 in
    let (f4, d4, t4, s4) = free-one (suc p) rest h3 d3 t3 in
    let h4 = erase (suc p) h3 in
    let vendor_in = has-here (suc v) (suc p ∷ rest) in
    let freed_one =
      vendor_round market_fuel v name current_market h h1 h2 h3 ev f1
        (s1 (suc v) (has-behind (suc v) markets _ vendor_in) ∙ ev) f2 f3 in
    let same : (a : Ptr) → has a rest ≡ true → h4 a ≡ h a = λ a i.
      let in_one = has-later a (suc p) rest i in
      let in_two = has-later a (suc v) (suc p ∷ rest) in_one in
      s4 a i ∙ s3 a in_one ∙ s2 a in_two ∙ s1 a (has-behind a markets _ in_two) in
    entry_round fuel market_fuel p v next h h3 h4 e freed_one f4
    ∙ all_given_back fuel market_fuel (Entries-same more same) d4 t4 (omega (arith, lengths))
        (omega (arith, lengths))
    ∙ ap ok (
        sym (
          released-append (pointee name) behind h
          ∙ released-append markets (suc v ∷ suc p ∷ rest) h1))

-- A list of vendors whose blocks, those of the vendors, their names and their markets included, are
-- allocated and distinct is freed as a whole, with its vendors: no block is read after it is freed or
-- freed twice, all these blocks are gone, and all others stay as they were.
pub vendor_list_free-released :
    (fuel market_fuel : ℕ) (h : Heap) (p : Ptr) (owned : List Ptr)
    → Entries h p owned
    → Distinct owned
    → Allocated h owned
    → length owned ≤ fuel
    → length owned ≤ market_fuel
    → (g : Heap) × (vendor_list_free fuel market_fuel p true h ≡ ok g)
      × ((a : Ptr) → g a ≡ (if has a owned then none else h a))
vendor_list_free-released fuel market_fuel h p owned entries distinct there enough each = (
  released owned h,
  all_given_back fuel market_fuel entries distinct there enough each,
  λ a. released-has a owned h,
)
