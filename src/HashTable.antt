-- ===== src/HashTable.antt =====
-- utils/hashtable.c: a table of strings over khash, which is a parameter. Nothing else uses it.
pub mod Sample
use ken_code_de_bridge.Base.{Bytes, Option, none, some, ◌∙◌, ◌≡◌, ◌≢◌}

-- The calls of khash: `kh_put` gives the table and the place of the key, whose value it leaves as it
-- is; `kh_get` gives nothing where it is `kh_end`.
pub record StringTable : Type 1 where
  pub Table : Type 0
  pub Place : Type 0
  pub kh_init : Table
  pub kh_put : Table → Bytes → Table × Place
  pub kh_get : Table → Bytes → Option Place
  pub kh_val : Table → Place → Bytes
  pub set_kh_value : Table → Place → Bytes → Table

module _ (kh : StringTable) where
  abbrev pub hashtable_new : kh.Table
  hashtable_new = kh.kh_init

  unfoldable pub hashtable_put : kh.Table → Bytes → Bytes → kh.Table
  hashtable_put ht key value = let (longer, k) = kh.kh_put ht key in kh.set_kh_value longer k value

  value_at : kh.Table → Option kh.Place → Option Bytes
  value_at ht none = none
  value_at ht (some k) = some (kh.kh_val ht k)

  unfoldable pub hashtable_get : kh.Table → Bytes → Option Bytes
  unfolding value_at
  hashtable_get ht key = value_at ht (kh.kh_get ht key)

-- What khash promises of one key and another; a table that grows may move its places.
pub record IsStringTable (kh : StringTable) : Type 0 where
  pub put_here :
      (t : kh.Table) (key : Bytes) → kh.kh_get (kh.kh_put t key).0 key ≡ some (kh.kh_put t key).1
  pub put_others :
      (t : kh.Table) (key other : Bytes)
      → key ≢ other
      → hashtable_get kh (kh.kh_put t key).0 other ≡ hashtable_get kh t other
  pub set_keys :
      (t : kh.Table) (key other value : Bytes) (k : kh.Place)
      → kh.kh_get t key ≡ some k
      → kh.kh_get (kh.set_kh_value t k value) other ≡ kh.kh_get t other
  pub set_here :
      (t : kh.Table) (key value : Bytes) (k : kh.Place)
      → kh.kh_get t key ≡ some k
      → kh.kh_val (kh.set_kh_value t k value) k ≡ value
  pub set_others :
      (t : kh.Table) (key other value : Bytes) (k : kh.Place)
      → key ≢ other
      → kh.kh_get t key ≡ some k
      → hashtable_get kh (kh.set_kh_value t k value) other ≡ hashtable_get kh t other

module _ (kh : StringTable) (laws : IsStringTable kh) where
  -- The value that was put last is found, and other keys keep theirs.
  pub hashtable_get-put :
      (ht : kh.Table) (key value : Bytes)
      → hashtable_get kh (hashtable_put kh ht key value) key ≡ some value
  unfolding hashtable_get hashtable_put value_at
  hashtable_get-put ht key value =
      let (longer, k) = kh.kh_put ht key in
      let here = laws.put_here ht key in
      rw (laws.set_keys longer key key value k here, here, laws.set_here longer key value k here)

  pub hashtable_get-put_other :
      (ht : kh.Table) (key other value : Bytes)
      → key ≢ other
      → hashtable_get kh (hashtable_put kh ht key value) other ≡ hashtable_get kh ht other
  unfolding hashtable_put
  hashtable_get-put_other ht key other value differ =
      laws.set_others (kh.kh_put ht key).0 key other value (kh.kh_put ht key).1 differ
        (laws.put_here ht key)
      ∙ laws.put_others ht key other differ
