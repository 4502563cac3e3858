-- ===== src/Memory/Release.antt =====
-- Blocks that are given back, and those that stay.
use ken_code_de_bridge.Base.{
  Bool, Bool-cases, List, Option, [], arith, false, if◌then◌else◌, inl, inr, none, ok, refl, some,
  suc, sym, true, zero, ◌++◌, ◌<◌, ◌==◌, ◌||◌, ◌∙◌, ◌∷◌, ◌≡◌, ◌≢◌,
}
use mathlib.Core.Path.{subst}
use ken_code_de_bridge.Memory.{Block, Heap, Ptr, erase, free, freed}

abbrev pub has : Ptr → List Ptr → Bool
has a [] = false
has a (p ∷ ps) = (a == p) || has a ps

-- No address twice.
abbrev pub Distinct : List Ptr → Type 0
Distinct [] = Unit
Distinct (p ∷ ps) = (has p ps ≡ false) × Distinct ps

abbrev pub Apart : List Ptr → List Ptr → Type 0
Apart ps qs = (a : Ptr) → has a ps ≡ true → has a qs ≡ false

-- All are allocated, and none is NULL.
abbrev pub Allocated : Heap → List Ptr → Type 0
Allocated h [] = Unit
Allocated h (p ∷ ps) = (0 < p) × ((h p ≢ none) × Allocated h ps)

-- The heap without some addresses.
abbrev pub released : List Ptr → Heap → Heap
released [] h = h
released (p ∷ ps) h = released ps (erase p h)

-- A pointer that may be NULL, as the addresses that it stands for.
abbrev pub pointee : Ptr → List Ptr
pointee zero = []
pointee (suc p) = suc p ∷ []

pub has-append : (a : Ptr) (ps qs : List Ptr) → has a (ps ++ qs) ≡ (has a ps || has a qs)
has-append a [] qs = refl
has-append a (p ∷ ps) qs = rw (has-append a ps qs) (or_assoc_of (a == p) (has a ps) (has a qs))
  where
    or_assoc_of : (x y z : Bool) → (x || (y || z)) ≡ ((x || y) || z)
    or_assoc_of true y z = refl
    or_assoc_of false y z = refl

pub released-append :
    (ps qs : List Ptr) (h : Heap) → released (ps ++ qs) h ≡ released qs (released ps h)
released-append [] qs h = refl
released-append (p ∷ ps) qs h = released-append ps qs (erase p h)

pub released-out : (a : Ptr) (ps : List Ptr) (h : Heap) → has a ps ≡ false → released ps h a ≡ h a
released-out a [] h out = refl
released-out a (p ∷ ps) h out =
    let apart : (a == p) ≡ false = ground (arith, out) in
    let later : has a ps ≡ false = ground (arith, out) in
    released-out a ps (erase p h) later ∙ rw apart

released-in : (a : Ptr) (ps : List Ptr) (h : Heap) → h a ≡ none → released ps h a ≡ none
released-in a [] h e = e
released-in a (p ∷ ps) h e = released-in a ps (erase p h) (erase_none (a == p))
  where
    erase_none : (b : Bool) → (if b then none else h a) ≡ none
    erase_none true = refl
    erase_none false = e

-- What the heap holds then.
pub released-has :
    (a : Ptr) (ps : List Ptr) (h : Heap) → released ps h a ≡ (if has a ps then none else h a)
released-has a [] h = refl
released-has a (p ∷ ps) h = elim (Bool-cases (a == p)) [
  | inl t ↦ released-in a ps (erase p h) (rw t) ∙ rw t
  | inr f ↦ released-has a ps (erase p h) ∙ rw f
]

pub has-left : (a : Ptr) (ps qs : List Ptr) → has a (ps ++ qs) ≡ false → has a ps ≡ false
has-left a ps qs out = ground (arith, has-append a ps qs, out)

pub has-right : (a : Ptr) (ps qs : List Ptr) → has a (ps ++ qs) ≡ false → has a qs ≡ false
has-right a ps qs out = ground (arith, has-append a ps qs, out)

pub has-behind : (a : Ptr) (ps qs : List Ptr) → has a qs ≡ true → has a (ps ++ qs) ≡ true
has-behind a [] qs i = i
has-behind a (p ∷ ps) qs i = ground (arith, has-behind a ps qs i)

pub has-front : (a : Ptr) (ps qs : List Ptr) → has a ps ≡ true → has a (ps ++ qs) ≡ true
has-front a ps qs i = rw (has-append a ps qs, i)

pub has-here : (p : Ptr) (ps : List Ptr) → has p (p ∷ ps) ≡ true
has-here p ps = let t : (p == p) ≡ true = ground arith in rw t

pub has-later : (a p : Ptr) (ps : List Ptr) → has a ps ≡ true → has a (p ∷ ps) ≡ true
has-later a p ps i = ground (arith, i)

pub Distinct-right : (ps qs : List Ptr) → Distinct (ps ++ qs) → Distinct qs
Distinct-right [] qs d = d
Distinct-right (p ∷ ps) qs (out, d) = Distinct-right ps qs d

pub Distinct-left : (ps qs : List Ptr) → Distinct (ps ++ qs) → Distinct ps
Distinct-left [] qs d = tt
Distinct-left (p ∷ ps) qs (out, d) = (has-left p ps qs out, Distinct-left ps qs d)

pub Distinct-Apart : (ps qs : List Ptr) → Distinct (ps ++ qs) → Apart ps qs
Distinct-Apart [] qs d a i = absurd (ground (arith, i))
Distinct-Apart (p ∷ ps) qs (out, d) a i = elim (Bool-cases (a == p)) [
  | inl t ↦
      let same : p ≡ a = ground (arith, t) in
      has-right a ps qs (subst (λ x. has x (ps ++ qs) ≡ false) same out)
  | inr f ↦ Distinct-Apart ps qs d a (rw f at i)
]

-- Allocated blocks stay so as long as nothing is done to them.
pub Allocated-same :
    (g h : Heap) (ps : List Ptr)
    → Allocated h ps
    → ((a : Ptr) → has a ps ≡ true → g a ≡ h a)
    → Allocated g ps
Allocated-same g h [] there same = tt
Allocated-same g h (p ∷ ps) (some_ptr, (there, others)) same = (
  some_ptr,
  (
    λ e. there (sym (same p (has-here p ps)) ∙ e),
    Allocated-same g h ps others (λ a i. same a (has-later a p ps i)),
  ),
)

pub Allocated-left : (h : Heap) (ps qs : List Ptr) → Allocated h (ps ++ qs) → Allocated h ps
Allocated-left h [] qs there = tt
Allocated-left h (p ∷ ps) qs (x, (y, there)) = (x, (y, Allocated-left h ps qs there))

pub Allocated-right : (h : Heap) (ps qs : List Ptr) → Allocated h (ps ++ qs) → Allocated h qs
Allocated-right h [] qs there = there
Allocated-right h (p ∷ ps) qs (x, (y, there)) = Allocated-right h ps qs there

-- Blocks apart from those that are given back are there as before.
pub Allocated-released :
    (h : Heap) (ps qs : List Ptr) → Apart qs ps → Allocated h qs → Allocated (released ps h) qs
Allocated-released h ps qs apart there =
    Allocated-same (released ps h) h qs there (λ a i. released-out a ps h (apart a i))

some_there :
    (p : Ptr) (h : Heap) (block : Option Block) → block ≢ none → freed p h block ≡ ok (erase p h)
unfolding freed
some_there p h none e = absurd (e refl)
some_there p h (some block) e = refl

pub free-released :
    (p : Ptr) (h : Heap) → Allocated h (pointee p) → free p h ≡ ok (released (pointee p) h)
unfolding free
free-released zero h there = refl
free-released (suc p) h (_, (there, _)) = some_there (suc p) h (h (suc p)) there

not_in_others : (a : Ptr) (ps qs : List Ptr) → Apart ps qs → has a qs ≡ true → has a ps ≡ false
not_in_others a ps qs apart i = elim (Bool-cases (has a ps)) [
  | inl t ↦ absurd (ground (arith, apart a t, i))
  | inr f ↦ f
]

-- Some blocks less: the others are still allocated, and as they were.
pub less :
    (ps rest : List Ptr) (h : Heap)
    → Distinct (ps ++ rest)
    → Allocated h (ps ++ rest)
    → (Distinct ps)
      × (Allocated h ps)
      × (Distinct rest)
      × (Allocated (released ps h) rest)
      × ((a : Ptr) → has a rest ≡ true → released ps h a ≡ h a)
less ps rest h distinct there =
    let apart = Distinct-Apart ps rest distinct in
    (
      Distinct-left ps rest distinct,
      Allocated-left h ps rest there,
      Distinct-right ps rest distinct,
      Allocated-released h ps rest (λ a i. not_in_others a ps rest apart i)
          (Allocated-right h ps rest there),
      λ a i. released-out a ps h (not_in_others a ps rest apart i),
    )

-- The same of one block, by `free`.
pub free-one :
    (p : Ptr) (rest : List Ptr) (h : Heap)
    → Distinct (pointee p ++ rest)
    → Allocated h (pointee p ++ rest)
    → (free p h ≡ ok (released (pointee p) h))
      × (Distinct rest)
      × (Allocated (released (pointee p) h) rest)
      × ((a : Ptr) → has a rest ≡ true → released (pointee p) h a ≡ h a)
free-one p rest h distinct there =
    let (_, first, others, allocated, same) = less (pointee p) rest h distinct there in
    (free-released p h first, others, allocated, same)
