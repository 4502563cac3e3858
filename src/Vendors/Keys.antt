-- ===== src/Vendors/Keys.antt =====
-- Lists of keys and values, and what `vendor_get_all_trading_pairs` relies on in the hash table.
use ken_code_de_bridge.Base.{
  Bool-cases, Bytes, List, Option, [], equal, equal_iff, false, if◌then◌else◌, inl, inr, none, refl,
  some, sym, ◌++◌, ◌∙◌, ◌∷◌, ◌≡◌,
}
use ken_code_de_bridge.Vendors.{Khash}
use mathlib.Core.Path.{subst}

-- The first value with a key.
abbrev pub lookup : {W : Type 0} → Bytes → List (Bytes × W) → Option W
lookup key [] = none
lookup key ((key', value) ∷ rest) = if equal key' key then some value else lookup key rest

abbrev pub DistinctKeys : {W : Type 0} → List (Bytes × W) → Type 0
DistinctKeys [] = Unit
DistinctKeys ((key, value) ∷ rest) = (lookup key rest ≡ none) × DistinctKeys rest

-- What the code relies on: a table holds each key once; a key that is there is refused, and any other
-- is stored, beside what the table held.
pub record IsKhash {W : Type 0} (khash : Khash W) : Type 0 where
  pub init_empty : khash.kh_entries khash.kh_init ≡ []
  pub put_old :
      (t : khash.Table) (key : Bytes) (value old : W)
      → lookup key (khash.kh_entries t) ≡ some old
      → khash.kh_put t key value ≡ none
  pub put_new :
      (t : khash.Table) (key : Bytes) (value : W)
      → DistinctKeys (khash.kh_entries t)
      → lookup key (khash.kh_entries t) ≡ none
      → (t' : khash.Table) × (khash.kh_put t key value ≡ some t')
        × DistinctKeys (khash.kh_entries t')
        × ((other : Bytes)
            → lookup other (khash.kh_entries t') ≡ lookup other ((key, value) ∷ khash.kh_entries t))

lookup-append_hit :
    {W : Type 0} (key : Bytes) (xs ys : List (Bytes × W)) (v : W)
    → lookup key xs ≡ some v
    → lookup key (xs ++ ys) ≡ some v
lookup-append_hit key [] ys v e = cc
lookup-append_hit key ((k, x) ∷ xs) ys v e = elim (Bool-cases (equal k key)) [
  | inl t ↦ rw t (rw t at e)
  | inr f ↦ rw f (lookup-append_hit key xs ys v (rw f at e))
]

lookup-append_miss :
    {W : Type 0} (key : Bytes) (xs ys : List (Bytes × W))
    → lookup key xs ≡ none
    → lookup key (xs ++ ys) ≡ lookup key ys
lookup-append_miss key [] ys e = refl
lookup-append_miss key ((k, x) ∷ xs) ys e = elim (Bool-cases (equal k key)) [
  | inl t ↦ cc (rw t at e)
  | inr f ↦ rw f (lookup-append_miss key xs ys (rw f at e))
]

-- One key more at the end of a list: it counts only where the list does not have it.
pub lookup-append_one :
    {W : Type 0} (key other : Bytes) (value : W) (xs : List (Bytes × W))
    → lookup key xs ≡ none
    → lookup other ((key, value) ∷ xs) ≡ lookup other (xs ++ (key, value) ∷ [])
lookup-append_one {W = W} key other value xs e = elim (Bool-cases (equal key other)) [
  | inl t ↦
      let same : key ≡ other = (equal_iff key other).0 t in
      rw t (
        sym (
          lookup-append_miss other xs ((key, value) ∷ []) (subst (λ k. lookup k xs ≡ none) same e)
          ∙ rw t))
  | inr f ↦ rw f (found_or_not (lookup other xs) refl f)
]
  where
    found_or_not :
        (o : Option W)
        → lookup other xs ≡ o
        → equal key other ≡ false
        → lookup other xs ≡ lookup other (xs ++ (key, value) ∷ [])
    found_or_not none h f = h ∙ sym (lookup-append_miss other xs ((key, value) ∷ []) h ∙ rw f)
    found_or_not (some v) h f = h ∙ sym (lookup-append_hit other xs ((key, value) ∷ []) v h)

pub lookup-append_old :
    {W : Type 0} (key other : Bytes) (value old : W) (xs : List (Bytes × W))
    → lookup key xs ≡ some old
    → lookup other xs ≡ lookup other (xs ++ (key, value) ∷ [])
lookup-append_old {W = W} key other value old xs e = go (lookup other xs) refl
  where
    go :
        (o : Option W)
        → lookup other xs ≡ o
        → lookup other xs ≡ lookup other (xs ++ (key, value) ∷ [])
    go (some v) h = h ∙ sym (lookup-append_hit other xs ((key, value) ∷ []) v h)
    go none h = elim (Bool-cases (equal key other)) [
      | inl t ↦
          let same : key ≡ other = (equal_iff key other).0 t in
          cc (h, subst (λ k. lookup k xs ≡ some old) same e)
      | inr f ↦ h ∙ sym (lookup-append_miss other xs ((key, value) ∷ []) h ∙ rw f)
    ]
