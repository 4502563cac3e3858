-- ===== src/Vendors/Firsts.antt =====
-- `vendor_get_all_trading_pairs` lists each pair once, with the fee of the first market that has it.
use mathlib.Core.Path.{subst}
use ken_code_de_bridge.Base.{
  Bool, Bool-cases, Bytes, Floats, List, [], ap, equal, equal_iff, false, inl, inr, none, ok, refl,
  sym, true, ◌&&◌, ◌++◌, ◌∙◌, ◌∷◌, ◌≡◌,
}
use ken_code_de_bridge.Book.{Market}
use ken_code_de_bridge.MarketCodec.Fits.{AllNamed}
use ken_code_de_bridge.Vendors.{Khash, Vendor, key_of, values, vendor_get_all_trading_pairs}
use ken_code_de_bridge.Vendors.Keys.{DistinctKeys, IsKhash, lookup}
use ken_code_de_bridge.Vendors.Pairs.{
  AllReady, all_keyed, listing, pairs_of, vendor_get_all_trading_pairs-keyed,
}
use ken_code_de_bridge.Vendors.Listed.{
  AllKeyed, AllKeyed-AllNamed, AllKeyed-append, IsKeyed, Once, all_found, equal-key_of,
  first_listed, has_tilde, is_text, lookup-IsKeyed, trades,
}

module _ {D : Type 0} where
  -- A name with '~' is no base of a table of keys.
  not_trades :
      (base quoted key : Bytes) (m : Market D)
      → IsKeyed key m
      → has_tilde base ≡ true
      → trades base quoted m ≡ false
  not_trades base quoted key m here h = rw here.has_base (by_test (equal here.base base) refl)
    where
      by_test :
          (b : Bool)
          → equal here.base base ≡ b
          → (equal here.base base && is_text quoted m.market_currency) ≡ false
      by_test true e =
          let same : here.base ≡ base = (equal_iff here.base base).0 e in
          let plain : has_tilde base ≡ false =
            subst (λ z. has_tilde z ≡ false) same here.no_tilde in
          cc (plain, h)
      by_test false e = rw e

  first_listed-tilde :
      (entries : List (Bytes × Market D)) (base quoted : Bytes)
      → AllKeyed entries
      → has_tilde base ≡ true
      → first_listed base quoted (values entries) ≡ none
  first_listed-tilde [] base quoted all h = refl
  first_listed-tilde ((key, m) ∷ rest) base quoted (here, all) h =
      rw (not_trades base quoted key m here h) (first_listed-tilde rest base quoted all h)

  trades-key :
      (base quoted key : Bytes) (m : Market D)
      → IsKeyed key m
      → has_tilde base ≡ false
      → trades base quoted m ≡ equal key (key_of base quoted)
  trades-key base quoted key m here h =
      rw (here.has_base, here.has_quoted, here.key_is)
        (sym (equal-key_of here.base base here.quoted quoted here.no_tilde h))

  -- A pair is found as its key is.
  lookup-first_listed :
      (entries : List (Bytes × Market D)) (base quoted : Bytes)
      → AllKeyed entries
      → has_tilde base ≡ false
      → first_listed base quoted (values entries) ≡ lookup (key_of base quoted) entries
  lookup-first_listed [] base quoted all h = refl
  lookup-first_listed ((key, m) ∷ rest) base quoted (here, all) h =
      rw (trades-key base quoted key m here h, lookup-first_listed rest base quoted all h)

  same_firsts :
      (xs ys : List (Bytes × Market D)) (base quoted : Bytes)
      → AllKeyed xs
      → AllKeyed ys
      → ((key : Bytes) → lookup key xs ≡ lookup key ys)
      → first_listed base quoted (values xs) ≡ first_listed base quoted (values ys)
  same_firsts xs ys base quoted hx hy same = elim (Bool-cases (has_tilde base)) [
    | inl t ↦ first_listed-tilde xs base quoted hx t ∙ sym (first_listed-tilde ys base quoted hy t)
    | inr f ↦
        lookup-first_listed xs base quoted hx f
        ∙ same (key_of base quoted)
        ∙ sym (lookup-first_listed ys base quoted hy f)
  ]

  Once-values :
      (entries : List (Bytes × Market D))
      → AllKeyed entries
      → DistinctKeys entries
      → Once (values entries)
  Once-values [] all distinct = tt
  Once-values ((key, m) ∷ rest) (here, all) (fresh, distinct) = (
    rw (here.has_base, here.has_quoted)
        (lookup-first_listed rest here.base here.quoted all here.no_tilde
          ∙ ap (λ k. lookup k rest) (sym here.key_is)
          ∙ fresh),
    Once-values rest all distinct,
  )

  values-append : (xs ys : List (Bytes × Market D)) → values (xs ++ ys) ≡ values xs ++ values ys
  values-append [] ys = refl
  values-append ((key, m) ∷ xs) ys = ap (λ ms. m ∷ ms) (values-append xs ys)

  module _ (floats : Floats D) where
    -- No base name has '~'.
    abbrev pub AllPlain : (ms : List (Market D)) → AllNamed ms → Type 0
    AllPlain [] named = Unit
    AllPlain (m ∷ ms) (named, later) = (has_tilde named.base ≡ false) × AllPlain ms later

    abbrev pub PlainNames : (vs : List (Vendor D)) → AllReady floats vs → Type 0
    PlainNames [] ready = Unit
    PlainNames (v ∷ vs) (_, named, ready) = AllPlain v.current_market named × PlainNames vs ready

    -- The markets of all vendors in order, by their names and fees.
    abbrev pub all_listed : (ms : List (Market D)) → AllNamed ms → List (Market D)
    all_listed [] named = []
    all_listed (m ∷ ms) (named, later) =
        listing floats named.base named.quoted m.fee ∷ all_listed ms later

    abbrev pub listings : (vs : List (Vendor D)) → AllReady floats vs → List (Market D)
    listings [] ready = []
    listings (v ∷ vs) (_, named, ready) = all_listed v.current_market named ++ listings vs ready

    all_keyed-AllKeyed :
        (ms : List (Market D)) (named : AllNamed ms)
        → AllPlain ms named
        → AllKeyed (all_keyed floats ms named)
    all_keyed-AllKeyed [] named plain = tt
    all_keyed-AllKeyed (m ∷ ms) (named, later) (here, plain) = (
      record {
        base = named.base;
        has_base = refl;
        quoted = named.quoted;
        has_quoted = refl;
        key_is = refl;
        no_tilde = here;
      },
      all_keyed-AllKeyed ms later plain,
    )

    pairs_of-AllKeyed :
        (vs : List (Vendor D)) (ready : AllReady floats vs)
        → PlainNames vs ready
        → AllKeyed (pairs_of floats vs ready)
    pairs_of-AllKeyed [] ready plain = tt
    pairs_of-AllKeyed (v ∷ vs) (_, named, ready) (here, plain) =
        AllKeyed-append (all_keyed floats v.current_market named) (pairs_of floats vs ready)
          (all_keyed-AllKeyed v.current_market named here) (pairs_of-AllKeyed vs ready plain)

    values-all_keyed :
        (ms : List (Market D)) (named : AllNamed ms)
        → values (all_keyed floats ms named) ≡ all_listed ms named
    values-all_keyed [] named = refl
    values-all_keyed (m ∷ ms) (named, later) =
        ap (λ xs. listing floats named.base named.quoted m.fee ∷ xs) (values-all_keyed ms later)

    values-pairs_of :
        (vs : List (Vendor D)) (ready : AllReady floats vs)
        → values (pairs_of floats vs ready) ≡ listings vs ready
    values-pairs_of [] ready = refl
    values-pairs_of (v ∷ vs) (_, named, ready) =
        values-append (all_keyed floats v.current_market named) (pairs_of floats vs ready)
        ∙ rw (values-all_keyed v.current_market named, values-pairs_of vs ready)

    -- The pairs of the vendors' markets, each once and with nothing else: the first market of a pair
    -- is the first of the vendors' markets with it, by its names and its fee.
    pub record ListsPairs (vs : List (Vendor D)) (ready : AllReady floats vs)
        (pairs : List (Market D)) : Type 0 where
      pub named : AllNamed pairs
      pub once : Once pairs
      pub firsts :
          (base quoted : Bytes)
          → first_listed base quoted pairs ≡ first_listed base quoted (listings vs ready)

    -- With a hash table that keeps its contract, and where every vendor is initialized, every market
    -- has both names and no base name has '~', the list of trading pairs has each pair of the vendors'
    -- markets once, and nothing else, with the fee of the first market of the pair.
    pub vendor_get_all_trading_pairs-firsts :
        (khash : Khash (Market D))
        → IsKhash khash
        → (vs : List (Vendor D)) (ready : AllReady floats vs) → PlainNames vs ready
        → (pairs : List (Market D)) × (vendor_get_all_trading_pairs floats khash vs ≡ ok pairs)
          × ListsPairs vs ready pairs
    vendor_get_all_trading_pairs-firsts khash laws vs ready plain =
        let (entries, e, distinct, same) =
          vendor_get_all_trading_pairs-keyed floats khash laws vs ready in
        let theirs = pairs_of-AllKeyed vs ready plain in
        let ours = all_found entries distinct (λ key m found.
          lookup-IsKeyed (pairs_of floats vs ready) key m theirs (sym (same key) ∙ found)) in
        (
          values entries,
          e,
          record {
            named = AllKeyed-AllNamed entries ours;
            once = Once-values entries ours distinct;
            firsts = λ base quoted.
                same_firsts entries (pairs_of floats vs ready) base quoted ours theirs same
                ∙ ap (first_listed base quoted) (values-pairs_of vs ready);
          },
        )
