-- ===== src/Vendors/Freed.antt =====
-- Which lists of markets are freed, by the calls of markets_get and the place of the thread that frees
-- them (book/vendor.c).
use ken_code_de_bridge.Base.{
  Bool, List, [], arith, false, length, refl, suc, true, zero, ℕ, ◌++◌, ◌+◌, ◌<◌, ◌==◌, ◌∷◌, ◌≡◌,
  ◌≤◌,
}
use ken_code_de_bridge.Vendors.Update.{Place, done, fetching, free_old, gone, newest, pause, top}
use ken_code_de_bridge.Vendors.Kept.{before_newest, freed_at, lists_of}
use ken_code_de_bridge.Memory.Release.{has}

not_yet : (fetched : List Bool) (n : ℕ) → length fetched < n → has n (lists_of fetched) ≡ false
not_yet [] n h = refl
not_yet (true ∷ fetched) n h =
    let ih = not_yet fetched n (omega arith) in
    let apart : (n == suc (length fetched)) ≡ false = ground arith in rw (apart, ih)
not_yet (false ∷ fetched) n h = not_yet fetched n (omega arith)

has-lists_of :
    (later fetched : List Bool)
    → has (suc (length fetched)) (lists_of (later ++ true ∷ fetched)) ≡ true
has-lists_of [] fetched = ground arith
has-lists_of (true ∷ later) fetched = ground (arith, has-lists_of later fetched)
has-lists_of (false ∷ later) fetched = has-lists_of later fetched

-- The calls of markets_get that have begun, of which the last may not have returned.
abbrev pub begun : Place → List Bool → ℕ
begun fetching fetched = length fetched + 1
begun place fetched = length fetched

-- Whether the vendor is freed, with no call returned behind the first `calls`.
abbrev pub left_current : Place → ℕ → List Bool → Bool
left_current gone calls fetched = length fetched == calls
left_current place calls fetched = false

-- Whether a list is freed, by the calls that have begun behind the one that returned it, or with its
-- vendor.
pub data Freed (place : Place) (later : List Bool) (list : ℕ) (freed : List ℕ) : Type 0 where
  kept :
      begun place later ≤ 1
      → left_current place 0 later ≡ false
      → has list freed ≡ false
      → Freed place later list freed
  over : 1 < begun place later → has list freed ≡ true → Freed place later list freed
  with_its_vendor :
      left_current place 0 later ≡ true → has list freed ≡ true → Freed place later list freed

length-before_newest : (fetched : List Bool) → length (before_newest fetched) ≤ length fetched
length-before_newest [] = omega arith
length-before_newest (got ∷ fetched) = omega arith

module _ (place : Place) (outside : (fs : List Bool) → begun place fs ≡ length fs)
    (not_left : (later : List Bool) → left_current place 0 later ≡ false) where
  freed_outside :
      (later fetched : List Bool)
      → Freed place later
          (suc (length fetched))
          (lists_of (before_newest (before_newest (later ++ true ∷ fetched))))
  freed_outside [] fetched = kept (omega (arith, outside [])) (not_left []) (
      not_yet (before_newest fetched) (suc (length fetched))
        (omega (arith, length-before_newest fetched)))
  freed_outside (x ∷ []) fetched =
      kept (omega (arith, outside (x ∷ []))) (not_left (x ∷ []))
        (not_yet fetched (suc (length fetched)) (omega arith))
  freed_outside (x ∷ y ∷ later) fetched =
      over (omega (arith, outside (x ∷ y ∷ later))) (has-lists_of later fetched)

freed_inside :
    (later fetched : List Bool)
    → Freed fetching later
        (suc (length fetched))
        (lists_of (before_newest (later ++ true ∷ fetched)))
freed_inside [] fetched =
    kept (omega arith) refl (not_yet fetched (suc (length fetched)) (omega arith))
freed_inside (x ∷ later) fetched = over (omega arith) (has-lists_of later fetched)

has-free_old :
    (list other : ℕ) (freed : List ℕ)
    → has list freed ≡ true
    → has list (free_old other freed) ≡ true
has-free_old list zero freed h = h
has-free_old list (suc other) freed h = ground (arith, h)

-- With the vendor goes the list of the last call, and no other.
freed_at_end :
    (later fetched : List Bool)
    → Freed gone later (suc (length fetched)) (freed_at gone (later ++ true ∷ fetched))
freed_at_end [] fetched = with_its_vendor refl (ground arith)
freed_at_end (false ∷ []) fetched =
    kept (omega arith) refl (not_yet fetched (suc (length fetched)) (omega arith))
freed_at_end (true ∷ []) fetched =
    let none_before = not_yet fetched (suc (length fetched)) (omega arith) in
    let apart : (suc (length fetched) == suc (suc (length fetched))) ≡ false = ground arith in
    kept (omega arith) refl (rw (apart, none_before))
freed_at_end (x ∷ y ∷ later) fetched = over (omega arith) (
    has-free_old (suc (length fetched)) (newest (x ∷ y ∷ (later ++ true ∷ fetched)))
      (lists_of (later ++ true ∷ fetched)) (has-lists_of later fetched))

pub freed_by :
    (place : Place) (later fetched : List Bool)
    → Freed place later (suc (length fetched)) (freed_at place (later ++ true ∷ fetched))
freed_by top later fetched = freed_outside top (λ fs. refl) (λ fs. refl) later fetched
freed_by fetching later fetched = freed_inside later fetched
freed_by (pause seconds) later fetched =
    freed_outside (pause seconds) (λ fs. refl) (λ fs. refl) later fetched
freed_by done later fetched = freed_outside done (λ fs. refl) (λ fs. refl) later fetched
freed_by gone later fetched = freed_at_end later fetched
