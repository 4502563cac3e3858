-- ===== src/Vendors/Pairs.antt =====
-- What `vendor_get_all_trading_pairs` puts into its hash table, by the keys of the pairs.
use mathlib.Core.Path.{subst}
use ken_code_de_bridge.Base.{
  Bytes, Floats, List, Option, [], ap, append-nil, append_assoc, none, ok, refl, some, true, ◌++◌,
  ◌∙◌, ◌∷◌, ◌≡◌,
}
use ken_code_de_bridge.Vendors.Keys.{
  DistinctKeys, IsKhash, lookup, lookup-append_old, lookup-append_one,
}
use ken_code_de_bridge.Vendors.{
  Khash, Vendor, key_of, or_old, pair_market, put_market, put_markets, put_vendors, values,
  vendor_get_all_trading_pairs,
}
use ken_code_de_bridge.Book.{Market, zero_double}
use ken_code_de_bridge.MarketCodec.Fits.{AllNamed, IsNamed}

module _ {D : Type 0} (floats : Floats D) where
  -- How a pair is listed: two names and the fee, and nothing else.
  abbrev pub listing : Bytes → Bytes → D → Market D
  listing base quoted fee = record {
    market_name = none;
    market_currency = some quoted;
    base_currency = some base;
    min_trade_size = zero_double floats;
    fee = fee;
  }

  -- The pair of a market with both names, under its key.
  abbrev pub keyed : (m : Market D) → IsNamed m → Bytes × Market D
  keyed m named = (key_of named.base named.quoted, listing named.base named.quoted m.fee)

  abbrev pub all_keyed : (ms : List (Market D)) → AllNamed ms → List (Bytes × Market D)
  all_keyed [] named = []
  all_keyed (m ∷ ms) (named, later) = keyed m named ∷ all_keyed ms later

  -- Every vendor is initialized, and its markets have both names.
  abbrev pub AllReady : List (Vendor D) → Type 0
  AllReady [] = Unit
  AllReady (v ∷ vs) = (v.is_initialized ≡ true) × AllNamed v.current_market × AllReady vs

  abbrev pub pairs_of : (vs : List (Vendor D)) → AllReady vs → List (Bytes × Market D)
  pairs_of [] ready = []
  pairs_of (v ∷ vs) (_, named, ready) = all_keyed v.current_market named ++ pairs_of vs ready

  module _ (khash : Khash (Market D)) (laws : IsKhash khash) where
    -- The table holds the first of each key of the list, once.
    pub record HoldsFirsts (t : khash.Table) (all : List (Bytes × Market D)) : Type 0 where
      pub distinct : DistinctKeys (khash.kh_entries t)
      pub same : (key : Bytes) → lookup key (khash.kh_entries t) ≡ lookup key all

    put_named :
        (t t' : khash.Table) (m : Market D) (named : IsNamed m) (o : Option khash.Table)
        → khash.kh_put t
            (key_of named.base named.quoted)
            (pair_market floats named.base named.quoted m.fee)
          ≡ o
        → or_old t o ≡ t'
        → put_market floats khash t m ≡ ok t'
    unfolding put_market
    put_named t t' m named o e e' = rw (named.has_base, named.has_quoted, e) (ap ok e')

    put_market-HoldsFirsts :
        (t : khash.Table) (m : Market D) (named : IsNamed m) (all : List (Bytes × Market D))
        → HoldsFirsts t all
        → (t' : khash.Table) × (put_market floats khash t m ≡ ok t')
          × HoldsFirsts t' (all ++ keyed m named ∷ [])
    put_market-HoldsFirsts t m named all holds = go (lookup (keyed m named).0 all) refl
      where
        with_same :
            (k other : Bytes) (value : Market D)
            → lookup other ((k, value) ∷ khash.kh_entries t) ≡ lookup other ((k, value) ∷ all)
        with_same k other value = rw (holds.same other)

        go :
            (o : Option (Market D))
            → lookup (keyed m named).0 all ≡ o
            → (t' : khash.Table) × (put_market floats khash t m ≡ ok t')
              × HoldsFirsts t' (all ++ keyed m named ∷ [])
        go (some old) h =
            let kept = laws.put_old t (keyed m named).0 (keyed m named).1 old (holds.same _ ∙ h) in
            (
              t,
              put_named t t m named none kept refl,
              record {
                distinct = holds.distinct;
                same = λ other.
                    holds.same other ∙ lookup-append_old (keyed m named).0 other _ old all h;
              },
            )
        go none h =
            let (t', e, distinct, same) =
              laws.put_new t (keyed m named).0 (keyed m named).1 holds.distinct
                (holds.same _ ∙ h) in
            (
              t',
              put_named t t' m named (some t') e refl,
              record {
                distinct = distinct;
                same = λ other.
                    same other
                    ∙ with_same (keyed m named).0 other (keyed m named).1
                    ∙ lookup-append_one (keyed m named).0 other _ all h;
              },
            )

    put_markets-HoldsFirsts :
        (t : khash.Table) (ms : List (Market D)) (named : AllNamed ms)
        (all : List (Bytes × Market D))
        → HoldsFirsts t all
        → (t' : khash.Table) × (put_markets floats khash t ms ≡ ok t')
          × HoldsFirsts t' (all ++ all_keyed ms named)
    unfolding put_markets
    put_markets-HoldsFirsts t [] named all holds = (t, refl, rw append-nil holds)
    put_markets-HoldsFirsts t (m ∷ ms) (named, later) all holds =
        let (t', e, holds') = put_market-HoldsFirsts t m named all holds in
        let (t'', e', holds'') =
          put_markets-HoldsFirsts t' ms later (all ++ keyed m named ∷ []) holds' in
        (
          t'',
          rw (e, e'),
          subst (HoldsFirsts t'') (append_assoc all (keyed m named ∷ []) (all_keyed ms later))
              holds'',
        )

    put_vendors-HoldsFirsts :
        (t : khash.Table) (vs : List (Vendor D)) (ready : AllReady vs)
        (all : List (Bytes × Market D))
        → HoldsFirsts t all
        → (t' : khash.Table) × (put_vendors floats khash t vs ≡ ok t')
          × HoldsFirsts t' (all ++ pairs_of vs ready)
    unfolding put_vendors
    put_vendors-HoldsFirsts t [] ready all holds = (t, refl, rw append-nil holds)
    put_vendors-HoldsFirsts t (v ∷ vs) (initialized, named, ready) all holds =
        let (t', e, holds') = put_markets-HoldsFirsts t v.current_market named all holds in
        let (t'', e', holds'') =
          put_vendors-HoldsFirsts t' vs ready (all ++ all_keyed v.current_market named) holds' in
        (
          t'',
          rw (initialized, e, e'),
          subst (HoldsFirsts t'')
              (append_assoc all (all_keyed v.current_market named) (pairs_of vs ready)) holds'',
        )

    -- The table holds the first market of each key, once.
    pub vendor_get_all_trading_pairs-keyed :
        (vs : List (Vendor D)) (ready : AllReady vs)
        → (entries : List (Bytes × Market D)) × (vendor_get_all_trading_pairs floats khash vs
            ≡ ok (values entries))
          × DistinctKeys entries
          × ((key : Bytes) → lookup key entries ≡ lookup key (pairs_of vs ready))
    unfolding vendor_get_all_trading_pairs
    vendor_get_all_trading_pairs-keyed vs ready =
        let start : HoldsFirsts khash.kh_init [] = record {
          distinct = rw laws.init_empty tt;
          same = λ key. rw laws.init_empty refl;
        } in
        let (t, e, holds) = put_vendors-HoldsFirsts khash.kh_init vs ready [] start in
        (khash.kh_entries t, rw e, holds.distinct, holds.same)
