-- ===== src/MarketCodec/Search.antt =====
-- `market_get` finds the first market of a pair.
use ken_code_de_bridge.Base.{
  Bool-cases, Bytes, List, Option, Outcome, [], ap, equal, equal_iff, false, fault, if◌then◌else◌,
  inl, inr, none, ok, out_of_fuel, refl, some, true, ◌++◌, ◌∙◌, ◌∷◌, ◌≡◌, ◌⊎◌,
}
use ken_code_de_bridge.Book.{Market}
use ken_code_de_bridge.MarketCodec.{market_get}
use ken_code_de_bridge.MarketCodec.Fits.{AllNamed, IsNamed}

abbrev pub Trades : {D : Type 0} → Bytes → Bytes → Market D → Type 0
Trades base quoted m = (m.base_currency ≡ some base) × (m.market_currency ≡ some quoted)

abbrev pub NoneTrades : {D : Type 0} → Bytes → Bytes → List (Market D) → Type 0
NoneTrades base quoted [] = Unit
NoneTrades base quoted (m ∷ ms) = (¬ Trades base quoted m) × NoneTrades base quoted ms

-- The list splits at the market found, with none of the pair in front; or none has the pair.
abbrev pub FoundMarket :
    {D : Type 0} → Bytes → Bytes → List (Market D) → Outcome (Option (Market D)) → Type 0
FoundMarket {D} base quoted ms (ok (some m)) =
    (front : List (Market D)) × (back : List (Market D)) × (ms ≡ front ++ m ∷ back)
    × Trades base quoted m
    × NoneTrades base quoted front
FoundMarket base quoted ms (ok none) = NoneTrades base quoted ms
FoundMarket base quoted ms fault = ⊥
FoundMarket base quoted ms out_of_fuel = ⊥

module _ {D : Type 0} (base quoted : Bytes) where
  FoundMarket-cons :
      (m : Market D) (ms : List (Market D)) (r : Outcome (Option (Market D)))
      → ¬ Trades base quoted m
      → FoundMarket base quoted ms r
      → FoundMarket base quoted (m ∷ ms) r
  FoundMarket-cons m ms (ok (some x)) ne (front, back, e, trades, none_there) =
      (m ∷ front, back, ap (λ y. m ∷ y) e, trades, (ne, none_there))
  FoundMarket-cons m ms (ok none) ne h = (ne, h)
  FoundMarket-cons m ms fault ne h = h
  FoundMarket-cons m ms out_of_fuel ne h = h

  -- The test of one market.
  both_or_not :
      (m : Market D) (named : IsNamed m)
      → (Trades base quoted m × (equal named.base base ≡ true) × (equal named.quoted quoted ≡ true))
        ⊎ ((¬ Trades base quoted m)
            × ((equal named.base base ≡ false)
                ⊎ ((equal named.base base ≡ true) × (equal named.quoted quoted ≡ false))))
  both_or_not m named = elim (Bool-cases (equal named.base base)) [
    | inr e ↦ inr (
      (λ t.
          let same : named.base ≡ base = cc (named.has_base, t.0) in
          cc ((equal_iff named.base base).1 same)),
      inl e,
    )
    | inl e ↦ elim (Bool-cases (equal named.quoted quoted)) [
      | inr f ↦ inr (
        (λ t.
            let same : named.quoted ≡ quoted = cc (named.has_quoted, t.1) in
            cc ((equal_iff named.quoted quoted).1 same)),
        inr (e, f),
      )
      | inl f ↦ inl (
        (
          named.has_base ∙ ap some ((equal_iff named.base base).0 e),
          named.has_quoted ∙ ap some ((equal_iff named.quoted quoted).0 f),
        ),
        e,
        f,
      )
    ]
  ]

  -- One round of the search.
  get_round :
      (m : Market D) (named : IsNamed m) (ms : List (Market D))
      → market_get (m ∷ ms) base quoted ≡ (
          if equal named.base base
          then (if equal named.quoted quoted then ok (some m) else market_get ms base quoted)
          else market_get ms base quoted)
  unfolding market_get
  get_round m named ms = rw (named.has_base, named.has_quoted)

  -- Where every market has both names, `market_get` returns the first market of the list with this
  -- base and this market currency, and NULL exactly if there is none; it never faults.
  pub market_get-FoundMarket :
      (ms : List (Market D)) → AllNamed ms → FoundMarket base quoted ms (market_get ms base quoted)
  market_get-FoundMarket [] named = unfold market_get in tt
  market_get-FoundMarket (m ∷ ms) (named, later) =
      let rest = market_get-FoundMarket ms later in
      rw (get_round m named ms) (elim (both_or_not m named) [
        | inl (trades, e, f) ↦ rw (e, f) ([], ms, refl, trades, tt)
        | inr (ne, inl e) ↦ rw e (FoundMarket-cons m ms _ ne rest)
        | inr (ne, inr (e, f)) ↦ rw (e, f) (FoundMarket-cons m ms _ ne rest)
      ])
