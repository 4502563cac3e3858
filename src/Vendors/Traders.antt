-- ===== src/Vendors/Traders.antt =====
-- `vendors_with_market` keeps the vendors that trade a pair, either way.
use ken_code_de_bridge.Base.{
  Bool, Bool-cases, Bytes, List, Option, Outcome, [], ap, arith, equal, equal_iff, equal_refl,
  false, fault, if◌then◌else◌, inl, inr, none, ok, out_of_fuel, refl, some, true, ◌&&◌, ◌++◌, ◌>>=◌,
  ◌||◌, ◌∷◌, ◌≡◌, ◌⊎◌,
}
use ken_code_de_bridge.Book.{Market}
use ken_code_de_bridge.MarketCodec.{market_get}
use ken_code_de_bridge.MarketCodec.Fits.{AllNamed, IsNamed}
use ken_code_de_bridge.MarketCodec.Search.{FoundMarket, NoneTrades, Trades, market_get-FoundMarket}
use ken_code_de_bridge.Vendors.{Vendor, either_way, vendors_with_market, with_vendor}

abbrev has_name : Option Bytes → Bytes → Bool
has_name none name = false
has_name (some str) name = equal str name

abbrev is_pair : {D : Type 0} → Bytes → Bytes → Market D → Bool
is_pair base quoted m = has_name m.base_currency base && has_name m.market_currency quoted

abbrev trades_any : {D : Type 0} → Bytes → Bytes → List (Market D) → Bool
trades_any base quoted [] = false
trades_any base quoted (m ∷ ms) = is_pair base quoted m || trades_any base quoted ms

-- The vendor has its markets, and trades the pair in one of its directions.
abbrev pub trades_pair : {D : Type 0} → Bytes → Bytes → Vendor D → Bool
trades_pair base quoted v =
    v.is_initialized
    && (trades_any base quoted v.current_market || trades_any quoted base v.current_market)

abbrev pub keep {ℓ} : {A : Type ℓ} → (A → Bool) → List A → List A
keep test [] = []
keep test (x ∷ xs) = if test x then x ∷ keep test xs else keep test xs

abbrev pub EveryNamed : {D : Type 0} → List (Vendor D) → Type 0
EveryNamed [] = Unit
EveryNamed (v ∷ vs) = AllNamed v.current_market × EveryNamed vs

module _ {D : Type 0} (base quoted : Bytes) where
  is_pair-Trades : (m : Market D) → Trades base quoted m → is_pair base quoted m ≡ true
  is_pair-Trades m (b, q) = rw (b, q, equal_refl base, equal_refl quoted)

  trades_any-found :
      (front : List (Market D)) (m : Market D) (back : List (Market D))
      → Trades base quoted m
      → trades_any base quoted (front ++ m ∷ back) ≡ true
  trades_any-found [] m back t = rw (is_pair-Trades m t)
  trades_any-found (x ∷ front) m back t =
      let later = trades_any-found front m back t in ground (arith, later)

  Trades-is_pair : (m : Market D) → IsNamed m → is_pair base quoted m ≡ true → Trades base quoted m
  Trades-is_pair m named e =
      let (hb, hq) = both (has_name m.base_currency base) (has_name m.market_currency quoted) e in
      (named_as m.base_currency base hb, named_as m.market_currency quoted hq)
    where
      both : (b c : Bool) → (b && c) ≡ true → (b ≡ true) × (c ≡ true)
      both true c h = (refl, h)
      both false c h = cc

      named_as : (o : Option Bytes) (str : Bytes) → has_name o str ≡ true → o ≡ some str
      named_as none str h = cc
      named_as (some s) str h = ap some ((equal_iff s str).0 h)

  trades_any-none :
      (ms : List (Market D))
      → AllNamed ms
      → NoneTrades base quoted ms
      → trades_any base quoted ms ≡ false
  trades_any-none [] named none_there = refl
  trades_any-none (m ∷ ms) (named, later) (ne, none_there) =
      elim (Bool-cases (is_pair base quoted m)) [
        | inl e ↦ absurd (ne (Trades-is_pair m named e))
        | inr e ↦ rw e (trades_any-none ms later none_there)
      ]

  market_get-any :
      (ms : List (Market D))
      → AllNamed ms
      → ((m : Market D) × (market_get ms base quoted ≡ ok (some m))
          × (trades_any base quoted ms ≡ true))
        ⊎ ((market_get ms base quoted ≡ ok none) × (trades_any base quoted ms ≡ false))
  market_get-any ms named =
      go (market_get ms base quoted) refl (market_get-FoundMarket base quoted ms named)
    where
      go :
          (r : Outcome (Option (Market D)))
          → market_get ms base quoted ≡ r
          → FoundMarket base quoted ms r
          → ((m : Market D) × (market_get ms base quoted ≡ ok (some m))
              × (trades_any base quoted ms ≡ true))
            ⊎ ((market_get ms base quoted ≡ ok none) × (trades_any base quoted ms ≡ false))
      go (ok (some m)) e (front, back, split, trades, _) =
          inl (m, e, rw split (trades_any-found front m back trades))
      go (ok none) e none_there = inr (e, trades_any-none ms named none_there)
      go fault e h = absurd h
      go out_of_fuel e h = absurd h

module _ {D : Type 0} (base quoted : Bytes) where
  -- One vendor that is initialized.
  looks :
      (v : Vendor D) (kept : List (Vendor D))
      → AllNamed v.current_market
      → (market_get v.current_market base quoted >>= λ normal.
          either_way normal (market_get v.current_market quoted base) >>= λ mkt.
          ok (with_vendor mkt v kept))
        ≡ ok (
            if trades_any base quoted v.current_market || trades_any quoted base v.current_market
            then v ∷ kept
            else kept)
  looks v kept named = elim (market_get-any base quoted v.current_market named) [
    | inl (m, e, t) ↦ rw (e, t)
    | inr (e, f) ↦ elim (market_get-any quoted base v.current_market named) [
      | inl (m, e', t) ↦ rw (e, f, e', t)
      | inr (e', f') ↦ rw (e, f, e', f')
    ]
  ]

  vendor_round :
      (name : Option Bytes) (initialized : Bool) (markets : List (Market D)) (running : Bool)
      (vs kept : List (Vendor D))
      → AllNamed markets
      → vendors_with_market vs base quoted ≡ ok kept
      → (let v : Vendor D = record {
        name = name;
        is_initialized = initialized;
        current_market = markets;
        running = running;
      } in
          vendors_with_market (v ∷ vs) base quoted
          ≡ ok (if trades_pair base quoted v then v ∷ kept else kept))
  unfolding vendors_with_market
  vendor_round name true markets running vs kept named e = rw e (
      looks
        (record { name = name; is_initialized = true; current_market = markets; running = running })
        kept named)
  vendor_round name false markets running vs kept named e = e

  -- Where every market has both names, `vendors_with_market` returns exactly the initialized vendors
  -- with a market of the pair in one of its directions, in their order.
  pub vendors_with_market-keep :
      (vs : List (Vendor D))
      → EveryNamed vs
      → vendors_with_market vs base quoted ≡ ok (keep (trades_pair base quoted) vs)
  vendors_with_market-keep [] named = unfold vendors_with_market in refl
  vendors_with_market-keep (v ∷ vs) (named, later) =
      vendor_round v.name v.is_initialized v.current_market v.running vs _ named
        (vendors_with_market-keep vs later)
