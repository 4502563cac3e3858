-- ===== src/Bittrex/Books.antt =====
-- `book_bittrex_parse_book` over the answer of `public/getorderbook`, as the tokens lay it out.
pub mod Bids
mod Tests
use ken_code_de_bridge.Base.{
  Bytes, Floats, List, [], ap, append_assoc, arith, codes, false, length, length-append, ok, refl,
  suc, true, zero, ℕ, ◌++◌, ◌+◌, ◌<◌, ◌∙◌, ◌∷◌, ◌≡◌, ◌≢◌, ◌≤◌,
}
use ken_code_de_bridge.Book.{Cursor, set_ask, set_current, whole, zero_double}
use ken_code_de_bridge.Book.Merge.{fill}
use ken_code_de_bridge.Json.{Token, double_of_text, json_get_double_value, primitive, string}
use ken_code_de_bridge.Json.Views.{At, View, lacks, view_is}
use ken_code_de_bridge.Json.Seek.{json_get_double_value-gap, json_get_double_value-none}
use ken_code_de_bridge.Bittrex.{asks_loop, read_entry}

-- One order of the answer, and in front of each key the views that are not looked at.
pub record Entry : Type 0 where
  pub gap_quantity : List View
  pub quantity : Bytes
  pub gap_rate : List View
  pub rate : Bytes

abbrev pub entry_views : Entry → List View → List View
entry_views e rest =
    e.gap_quantity
    ++ (string, codes "Quantity")
      ∷ (primitive, e.quantity)
      ∷ (e.gap_rate ++ (string, codes "Rate") ∷ (primitive, e.rate) ∷ rest)

abbrev pub entries_views : List Entry → List View → List View
entries_views [] rest = rest
entries_views (e ∷ entries) rest = entry_views e (entries_views entries rest)

abbrev pub AllInOrder : List Entry → Type 0
AllInOrder [] = Unit
AllInOrder (e ∷ entries) =
    (lacks (codes "Quantity") e.gap_quantity ≡ true)
    × (lacks (codes "Rate") e.gap_rate ≡ true)
    × AllInOrder entries

pub lacks-append :
    (tag : Bytes) (xs ys : List View)
    → lacks tag xs ≡ true
    → lacks tag ys ≡ true
    → lacks tag (xs ++ ys) ≡ true
lacks-append tag [] ys hx hy = hy
lacks-append tag (v ∷ xs) ys hx hy = ground (arith, lacks-append tag xs ys)

pub length_behind :
    (gap : List View) (v : View) (rest : List View) → length rest < length (gap ++ v ∷ rest)
length_behind gap v rest = omega (arith, length-append {0} gap (v ∷ rest))

pub entries_views-append :
    (entries : List Entry) (gap rest : List View)
    → entries_views entries gap ++ rest ≡ entries_views entries (gap ++ rest)
entries_views-append [] gap rest = refl
entries_views-append (e ∷ entries) gap rest =
    append_assoc e.gap_quantity _ rest
    ∙ ap (λ x. e.gap_quantity ++ (string, codes "Quantity") ∷ (primitive, e.quantity) ∷ x)
        (append_assoc e.gap_rate _ rest
          ∙ ap (λ x. e.gap_rate ++ (string, codes "Rate") ∷ (primitive, e.rate) ∷ x)
              (entries_views-append entries gap rest))

pub length-entries_views :
    (entries : List Entry) (rest : List View)
    → length entries + length rest ≤ length (entries_views entries rest)
length-entries_views [] rest = omega arith
length-entries_views (e ∷ entries) rest =
    omega (arith, length-append {0}, length-entries_views entries rest)

module _ {D : Type 0} (floats : Floats D) where
  -- Quantity and price of each order.
  abbrev pub side_of : List Entry → List (D × D)
  side_of [] = []
  side_of (e ∷ entries) =
      (double_of_text floats e.quantity, double_of_text floats e.rate) ∷ side_of entries

  module _ (json : Bytes) (tokens : List Token) (n : ℕ) where
    read_entry-found :
        (i a b : ℕ) (quantity rate : D)
        → json_get_double_value floats json tokens n i (codes "Quantity") (zero_double floats)
          ≡ ok (suc a, quantity)
        → json_get_double_value floats json tokens n (suc a) (codes "Rate") (zero_double floats)
          ≡ ok (suc b, rate)
        → read_entry floats json tokens n i ≡ ok (suc b, quantity, rate)
    unfolding read_entry
    read_entry-found i a b quantity rate ea eb = rw (ea, eb) (ground arith)

    read_entry-next :
        (i : ℕ) (v : View) (e : Entry) (rest : List View)
        → At json tokens n i (v ∷ entry_views e rest)
        → view_is (codes "Quantity") v ≡ false
        → lacks (codes "Quantity") e.gap_quantity ≡ true
        → lacks (codes "Rate") e.gap_rate ≡ true
        → (j : ℕ) × At json tokens n (suc j) ((primitive, e.rate) ∷ rest)
          × (read_entry floats json tokens n i
              ≡ ok (suc j, double_of_text floats e.quantity, double_of_text floats e.rate))
    read_entry-next i v e rest at nv lq lr =
        let (a, ea, at_a) =
          json_get_double_value-gap json tokens n i (codes "Quantity") floats (zero_double floats)
            (v ∷ e.gap_quantity) _ e.quantity at (rw (nv, lq)) in
        let (b, eb, at_b) =
          json_get_double_value-gap json tokens n (suc a) (codes "Rate") floats (zero_double floats)
            ((primitive, e.quantity) ∷ e.gap_rate) _ e.rate at_a lr in
        (b, at_b, read_entry-found i a b _ _ ea eb)

    read_entry-none :
        (i : ℕ) (vs : List View)
        → At json tokens n i vs
        → lacks (codes "Quantity") vs ≡ true
        → (quantity : D) × (rate : D) × (read_entry floats json tokens n i ≡ ok (0, quantity, rate))
    unfolding read_entry
    read_entry-none i vs at l = (
      zero_double floats,
      zero_double floats,
      rw (json_get_double_value-none json tokens n i (codes "Quantity") floats _ vs at l),
    )

    -- The loop over the asks: one round, and the end.
    asks_round :
        (fuel i j : ℕ) (c : Cursor D) (quantity rate : D)
        → read_entry floats json tokens n i ≡ ok (suc j, quantity, rate)
        → i ≢ 0
        → asks_loop floats json tokens n (suc fuel) i c
          ≡ asks_loop floats json tokens n fuel
              (suc j)
              (set_current floats (set_ask quantity rate) c)
    unfolding asks_loop
    asks_round fuel i j c quantity rate e ne = rw e (ground arith)

    asks_last :
        (fuel i : ℕ) (c : Cursor D) (quantity rate : D)
        → read_entry floats json tokens n i ≡ ok (0, quantity, rate)
        → i ≢ 0
        → asks_loop floats json tokens n (suc (suc fuel)) i c ≡ ok (whole c)
    unfolding asks_loop
    asks_last fuel i c quantity rate e ne = rw e (ground arith)

    asks_loop-fill :
        (asks : List Entry) (fuel i : ℕ) (v : View) (tail : List View) (c : Cursor D)
        → At json tokens n i (v ∷ entries_views asks tail)
        → i ≢ 0
        → view_is (codes "Quantity") v ≡ false
        → AllInOrder asks
        → lacks (codes "Quantity") tail ≡ true
        → length asks + 1 < fuel
        → asks_loop floats json tokens n fuel i c
          ≡ ok (whole (fill floats set_ask (side_of asks) c))
    asks_loop-fill asks zero i v tail c at ne nv o l h = absurd (omega arith)
    asks_loop-fill [] (suc zero) i v tail c at ne nv o l h = absurd (omega arith)
    asks_loop-fill [] (suc (suc fuel)) i v tail c at ne nv o l h =
        let (q, r, e) = read_entry-none i (v ∷ tail) at (rw (nv, l)) in asks_last fuel i c q r e ne
    asks_loop-fill (a ∷ asks) (suc fuel) i v tail c at ne nv (lq, lr, o) l h =
        let (j, at', e) = read_entry-next i v a (entries_views asks tail) at nv lq lr in
        asks_round fuel i j c _ _ e ne
        ∙ asks_loop-fill asks fuel (suc j) (primitive, a.rate) tail _ at' (λ z. cc z) refl o l
            (omega arith)
