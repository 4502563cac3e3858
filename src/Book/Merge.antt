-- ===== src/Book/Merge.antt =====
-- The two sides of a book: bids and asks, level by level.
use ken_code_de_bridge.Base.{Floats, List, [], ap, append_assoc, refl, set, ◌++◌, ◌∙◌, ◌∷◌, ◌≡◌}
use ken_code_de_bridge.Book.{Book, Cursor, book_new, set_ask, set_bid, set_current, whole}

module _ {D : Type 0} (floats : Floats D) where
  -- Two sides merged, each a list of quantities and prices: where one is shorter, its quantities
  -- and prices are 0.
  abbrev pub merged : List (D × D) → List (D × D) → List (Book D)
  merged [] [] = []
  merged [] ((qty, price) ∷ asks) = set_ask qty price (book_new floats) ∷ merged [] asks
  merged ((qty, price) ∷ bids) [] = set_bid qty price (book_new floats) ∷ merged bids []
  merged ((qty, price) ∷ bids) ((qty', price') ∷ asks) =
      set_ask qty' price' (set_bid qty price (book_new floats)) ∷ merged bids asks

  abbrev pub Setter : Type 0
  Setter = D → D → Book D → Book D

  -- The list that the first loop builds, of the side that `set` writes.
  abbrev pub one_sided : Setter → List (D × D) → List (Book D)
  one_sided set [] = []
  one_sided set ((qty, price) ∷ side) = set qty price (book_new floats) ∷ one_sided set side

  -- The second loop over a list of entries.
  abbrev pub fill : Setter → List (D × D) → Cursor D → Cursor D
  fill set [] c = c
  fill set ((qty, price) ∷ side) c = fill set side (set_current floats (set qty price) c)

  -- The bids first, then the asks.
  pub fill_asks :
      (bids asks : List (D × D)) (before : List (Book D))
      → whole
          (fill set_ask asks (record { before = before; from_current = one_sided set_bid bids }))
        ≡ before ++ merged bids asks
  unfolding set_current
  fill_asks [] [] before = refl
  fill_asks ((qty, price) ∷ bids) [] before =
      ap (λ x. before ++ set_bid qty price (book_new floats) ∷ x) (fill_asks bids [] [])
  fill_asks [] (ask ∷ asks) before = fill_asks [] asks _ ∙ append_assoc before _ _
  fill_asks (bid ∷ bids) (ask ∷ asks) before = fill_asks bids asks _ ∙ append_assoc before _ _

  -- The asks first, then the bids.
  pub fill_bids :
      (asks bids : List (D × D)) (before : List (Book D))
      → whole
          (fill set_bid bids (record { before = before; from_current = one_sided set_ask asks }))
        ≡ before ++ merged bids asks
  unfolding set_current
  fill_bids [] [] before = refl
  fill_bids ((qty, price) ∷ asks) [] before =
      ap (λ x. before ++ set_ask qty price (book_new floats) ∷ x) (fill_bids asks [] [])
  fill_bids [] (bid ∷ bids) before = fill_bids [] bids _ ∙ append_assoc before _ _
  fill_bids (ask ∷ asks) (bid ∷ bids) before = fill_bids asks bids _ ∙ append_assoc before _ _

  -- A loop that appends entry by entry builds the one-sided list.
  pub one_sided-append :
      (set : Setter) (xs ys : List (D × D))
      → one_sided set xs ++ one_sided set ys ≡ one_sided set (xs ++ ys)
  one_sided-append set [] ys = refl
  one_sided-append set (x ∷ xs) ys =
      ap (λ r. set x.0 x.1 (book_new floats) ∷ r) (one_sided-append set xs ys)
