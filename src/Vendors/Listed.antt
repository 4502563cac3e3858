-- ===== src/Vendors/Listed.antt =====
-- The pairs of a list of markets by their two names, and the keys "base~quoted" under which the hash
-- table of `vendor_get_all_trading_pairs` holds them: a base name with '~' would make two pairs one.
use mathlib.Core.Path.{subst}
use ken_code_de_bridge.Base.{
  Bool, Bool-cases, Bytes, List, Option, [], arith, equal, equal_iff, equal_refl, false,
  if◌then◌else◌, inl, inr, none, refl, some, ◌&&◌, ◌++◌, ◌==◌, ◌||◌, ◌∷◌, ◌≡◌,
}
use ken_code_de_bridge.Book.{Market}
use ken_code_de_bridge.MarketCodec.Fits.{AllNamed}
use ken_code_de_bridge.Vendors.{key_of, values}
use ken_code_de_bridge.Vendors.Keys.{DistinctKeys, lookup}

abbrev pub is_text : Bytes → Option Bytes → Bool
is_text name none = false
is_text name (some text) = equal text name

module _ {D : Type 0} where
  abbrev pub trades : Bytes → Bytes → Market D → Bool
  trades base quoted m = is_text base m.base_currency && is_text quoted m.market_currency

  -- The first market of a pair.
  abbrev pub first_listed : Bytes → Bytes → List (Market D) → Option (Market D)
  first_listed base quoted [] = none
  first_listed base quoted (m ∷ ms) =
      let later = first_listed base quoted ms in if trades base quoted m then some m else later

  -- The first one with two names that may be NULL.
  abbrev pub namesake : Option Bytes → Option Bytes → List (Market D) → Option (Market D)
  namesake (some base) (some quoted) ms = first_listed base quoted ms
  namesake base quoted ms = none

  -- No pair twice.
  abbrev pub Once : List (Market D) → Type 0
  Once [] = Unit
  Once (m ∷ ms) = (namesake m.base_currency m.market_currency ms ≡ none) × Once ms

abbrev pub has_tilde : Bytes → Bool
has_tilde [] = false
has_tilde (c ∷ text) = (c == b'~') || has_tilde text

-- Keys are equal where both names are.
pub equal-key_of :
    (b b' q q' : Bytes)
    → has_tilde b ≡ false
    → has_tilde b' ≡ false
    → equal (key_of b q) (key_of b' q') ≡ (equal b b' && equal q q')
unfolding equal
equal-key_of [] [] q q' h h' = refl
equal-key_of [] (d ∷ b') q q' h h' = ground arith
equal-key_of (c ∷ b) [] q q' h h' = ground arith
equal-key_of (c ∷ b) (d ∷ b') q q' h h' = ground (arith, equal-key_of b b' q q')

module _ {D : Type 0} where
  -- An entry of the table: a market with both names, under their key.
  pub record IsKeyed (key : Bytes) (m : Market D) : Type 0 where
    pub base : Bytes
    pub has_base : m.base_currency ≡ some base
    pub quoted : Bytes
    pub has_quoted : m.market_currency ≡ some quoted
    pub key_is : key ≡ key_of base quoted
    pub no_tilde : has_tilde base ≡ false

  abbrev pub AllKeyed : List (Bytes × Market D) → Type 0
  AllKeyed [] = Unit
  AllKeyed ((key, m) ∷ rest) = IsKeyed key m × AllKeyed rest

  pub AllKeyed-append :
      (xs ys : List (Bytes × Market D)) → AllKeyed xs → AllKeyed ys → AllKeyed (xs ++ ys)
  AllKeyed-append [] ys hx hy = hy
  AllKeyed-append ((key, m) ∷ xs) ys (here, hx) hy = (here, AllKeyed-append xs ys hx hy)

  pub AllKeyed-AllNamed :
      (entries : List (Bytes × Market D)) → AllKeyed entries → AllNamed (values entries)
  AllKeyed-AllNamed [] all = tt
  AllKeyed-AllNamed ((key, m) ∷ rest) (here, all) = (
    record {
      base = here.base;
      has_base = here.has_base;
      quoted = here.quoted;
      has_quoted = here.has_quoted;
    },
    AllKeyed-AllNamed rest all,
  )

  -- What is found is keyed, and a table is where all that is found in it is.
  pub lookup-IsKeyed :
      (entries : List (Bytes × Market D)) (key : Bytes) (m : Market D)
      → AllKeyed entries
      → lookup key entries ≡ some m
      → IsKeyed key m
  lookup-IsKeyed [] key m all e = cc e
  lookup-IsKeyed ((k, x) ∷ rest) key m (here, all) e = elim (Bool-cases (equal k key)) [
    | inl t ↦
        let same : x ≡ m = some_same x m (rw t at e) in
        subst (IsKeyed key) same (subst (λ z. IsKeyed z x) ((equal_iff k key).0 t) here)
    | inr f ↦ lookup-IsKeyed rest key m all (rw f at e)
  ]
    where
      some_same : (a b : Market D) → some a ≡ some b → a ≡ b
      some_same a b e = cc e

  lookup-later :
      (key : Bytes) (entry : Bytes × Market D) (rest : List (Bytes × Market D)) (m : Market D)
      → lookup entry.0 rest ≡ none
      → lookup key rest ≡ some m
      → lookup key (entry ∷ rest) ≡ some m
  lookup-later key (k, x) rest m fresh e = elim (Bool-cases (equal k key)) [
    | inl t ↦
        let same : k ≡ key = (equal_iff k key).0 t in
        cc (e, subst (λ z. lookup z rest ≡ none) same fresh)
    | inr f ↦ rw f e
  ]

  pub all_found :
      (entries : List (Bytes × Market D))
      → DistinctKeys entries
      → ((key : Bytes) (m : Market D) → lookup key entries ≡ some m → IsKeyed key m)
      → AllKeyed entries
  all_found [] distinct found = tt
  all_found ((k, m) ∷ rest) (fresh, distinct) found = (
    found k m (rw equal_refl),
    all_found rest distinct (λ key x e. found key x (lookup-later key (k, m) rest x fresh e)),
  )
