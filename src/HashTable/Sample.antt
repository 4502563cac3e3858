-- ===== src/HashTable/Sample.antt =====
-- A table of strings that is a list of its entries. It meets the contract of `IsStringTable`.
use mathlib.Core.Path.{subst}
use ken_code_de_bridge.HashTable.{
  IsStringTable, StringTable, hashtable_get, hashtable_get-put, hashtable_put, value_at,
}
use ken_code_de_bridge.Base.{
  Bool, Bool-cases, Bytes, List, Option, [], ap, codes, equal, equal_iff, equal_refl, false,
  if◌then◌else◌, inl, inr, none, refl, some, sym, true, ◌∙◌, ◌∷◌, ◌≡◌, ◌≢◌,
}

abbrev Stored : Type 0
Stored = List (Bytes × Bytes)

abbrev find : Stored → Bytes → Option Bytes
find [] key = none
find ((k, v) ∷ t) key = let later = find t key in if equal k key then some v else later

abbrev update : Stored → Bytes → Bytes → Stored
update [] key value = []
update ((k, v) ∷ t) key value =
    let later = update t key value in if equal k key then (k, value) ∷ t else (k, v) ∷ later

abbrev with_key : Stored → Bytes → Option Bytes → Stored
with_key t key none = (key, []) ∷ t
with_key t key (some v) = t

abbrev at_key : Bytes → Option Bytes → Option Bytes
at_key key none = none
at_key key (some v) = some key

abbrev or_empty : Option Bytes → Bytes
or_empty none = []
or_empty (some v) = v

abbrev pub listed_strings : StringTable
listed_strings = record {
  Table = Stored;
  Place = Bytes;
  kh_init = [];
  kh_put = λ t key. (with_key t key (find t key), key);
  kh_get = λ t key. at_key key (find t key);
  kh_val = λ t k. or_empty (find t k);
  set_kh_value = λ t k value. update t k value;
}

find-here : (t : Stored) (key v : Bytes) → find ((key, v) ∷ t) key ≡ some v
find-here t key v = rw equal_refl

differs : (a b : Bytes) → a ≢ b → equal a b ≡ false
differs a b h = elim (Bool-cases (equal a b)) [
  | inl t ↦ absurd (h ((equal_iff a b).0 t))
  | inr f ↦ f
]

find-update :
    (t : Stored) (key v value : Bytes)
    → find t key ≡ some v
    → find (update t key value) key ≡ some value
find-update [] key v value e = cc e
find-update ((k, w) ∷ t) key v value e = elim (Bool-cases (equal k key)) [
  | inl s ↦ rw (s, s)
  | inr f ↦ rw (f, f) (find-update t key v value (rw f at e))
]

find-update_other :
    (t : Stored) (key other value : Bytes)
    → key ≢ other
    → find (update t key value) other ≡ find t other
find-update_other [] key other value h = refl
find-update_other ((k, w) ∷ t) key other value h = elim (Bool-cases (equal k key)) [
  | inl s ↦
      let same : k ≡ key = (equal_iff k key).0 s in
      let apart : equal k other ≡ false = differs k other (λ e. h (sym same ∙ e)) in rw (s, apart)
  | inr f ↦
      rw f (ap (λ x. if equal k other then some w else x) (find-update_other t key other value h))
]

at_key-eq-some :
    (key k : Bytes) (o : Option Bytes)
    → at_key key o ≡ some k
    → (v : Bytes) × (o ≡ some v) × (key ≡ k)
at_key-eq-some key k none e = cc e
at_key-eq-some key k (some v) e = (v, refl, same key k e)
  where
    same : (a b : Bytes) → Option.some a ≡ some b → a ≡ b
    same a b e = cc e

put_key :
    (t : Stored) (key : Bytes) (o : Option Bytes)
    → find t key ≡ o
    → at_key key (find (with_key t key o) key) ≡ some key
put_key t key none e = rw (find-here t key [])
put_key t key (some v) e = rw e

put_other :
    (t : Stored) (key other : Bytes) (o : Option Bytes)
    → key ≢ other
    → find (with_key t key o) other ≡ find t other
put_other t key other none h = rw (differs key other h)
put_other t key other (some v) h = refl

keys_kept :
    (t : Stored) (key other value v : Bytes)
    → find t key ≡ some v
    → at_key other (find (update t key value) other) ≡ at_key other (find t other)
keys_kept t key other value v e = elim (Bool-cases (equal key other)) [
  | inl s ↦
      let same : key ≡ other = (equal_iff key other).0 s in
      subst (λ x. at_key x (find (update t key value) x) ≡ at_key x (find t x)) same
        (rw (find-update t key v value e, e))
  | inr f ↦ ap (at_key other) (
      find-update_other t key other value
        (λ same. absurd (both_ways (equal key other) ((equal_iff key other).1 same) f)))
]
  where
    both_ways : (b : Bool) → b ≡ true → b ≡ false → ⊥
    both_ways b e f = cc (e, f)

value_found :
    (t : Stored) (key : Bytes) (o : Option Bytes)
    → find t key ≡ o
    → value_at listed_strings t (at_key key o) ≡ o
unfolding value_at
value_found t key none e = refl
value_found t key (some v) e = rw e

hashtable_get-find : (t : Stored) (key : Bytes) → hashtable_get listed_strings t key ≡ find t key
unfolding hashtable_get
hashtable_get-find t key = value_found t key (find t key) refl

listed_strings-IsStringTable : IsStringTable listed_strings
listed_strings-IsStringTable = record {
  put_here = λ t key. put_key t key (find t key) refl;
  put_others = λ t key other h.
      hashtable_get-find (with_key t key (find t key)) other
      ∙ put_other t key other (find t key) h
      ∙ sym (hashtable_get-find t other);
  set_keys = λ t key other value k e.
      let (v, found, same) = at_key-eq-some key k (find t key) e in
      subst (λ x. at_key other (find (update t x value) other) ≡ at_key other (find t other)) same
        (keys_kept t key other value v found);
  set_here = λ t key value k e.
      let (v, found, same) = at_key-eq-some key k (find t key) e in
      subst (λ x. or_empty (find (update t x value) x) ≡ value) same
        (rw (find-update t key v value found));
  set_others = λ t key other value k h e.
      let (v, found, same) = at_key-eq-some key k (find t key) e in
      hashtable_get-find (update t k value) other
      ∙ subst (λ x. find (update t x value) other ≡ find t other) same
          (find-update_other t key other value h)
      ∙ sym (hashtable_get-find t other);
}

-- A second value of a key takes the place of the first.
put_again :
    hashtable_get listed_strings
      (hashtable_put listed_strings
        (hashtable_put listed_strings listed_strings.kh_init (codes "a") (codes "1"))
        (codes "a")
        (codes "2"))
      (codes "a")
    ≡ some (codes "2")
put_again = hashtable_get-put listed_strings listed_strings-IsStringTable _ (codes "a") (codes "2")
