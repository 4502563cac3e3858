-- ===== src/Bittrex/Books/Bids.antt =====
-- `book_bittrex_parse_book`: the loop over the bids, and the whole answer.
use mathlib.Core.Path.{subst}
use ken_code_de_bridge.Base.{
  Bool, Bytes, Floats, List, [], ap, append-nil, append_assoc, arith, codes, equal, false,
  if◌then◌else◌, length, length-append, ltb, lt→ltb, ok, pos, refl, some, suc, sym, true, zero, ℕ,
  ℤ, ◌++◌, ◌+◌, ◌<◌, ◌==◌, ◌∙◌, ◌∷◌, ◌≡◌, ◌≢◌, ◌≤◌,
}
use ken_code_de_bridge.Book.{Book, book_new, set_bid}
use ken_code_de_bridge.Json.{
  Token, Tokenizer, int_of_text, json_find_token, json_get_int_value, primitive, string,
}
use ken_code_de_bridge.Json.Views.{At, At-skip, View, json_find_token-gap, lacks, view_is}
use ken_code_de_bridge.Book.Merge.{fill_asks, merged, one_sided}
use ken_code_de_bridge.Json.Seek.{json_get_int_value-gap}
use ken_code_de_bridge.Bittrex.{
  asks_loop, bids_loop, book_bittrex_parse_book, book_from_start, is_below, is_zero, read_entry,
}
use ken_code_de_bridge.Bittrex.Books.{
  AllInOrder, Entry, asks_loop-fill, entries_views, entries_views-append, entry_views, lacks-append,
  length-entries_views, read_entry-next, read_entry-none, side_of,
}

-- The views from the key "sell" on.
abbrev pub sell_views : List Entry → List View → List View
sell_views asks tail = (string, codes "sell") ∷ entries_views asks tail

-- The first ask, with all that stands between the last bid and its key.
abbrev behind_gap : List View → Entry → Entry
behind_gap gap a = record a { gap_quantity = gap ++ (string, codes "sell") ∷ a.gap_quantity }

behind_gap-views :
    (gap : List View) (a : Entry) (rest : List View)
    → entry_views (behind_gap gap a) rest ≡ gap ++ (string, codes "sell") ∷ entry_views a rest
behind_gap-views gap a rest = append_assoc gap ((string, codes "sell") ∷ a.gap_quantity) _

module _ {D : Type 0} (floats : Floats D) (json : Bytes) (tokens : List Token) (n : ℕ) where
  bids_round :
      (fuel i j : ℕ) (sell_pos : ℤ) (book : List (Book D)) (quantity rate : D) (b : Bool)
      → read_entry floats json tokens n i ≡ ok (suc j, quantity, rate)
      → i ≢ 0
      → is_below floats json tokens n i sell_pos ≡ true
      → is_below floats json tokens n (suc j) sell_pos ≡ b
      → bids_loop floats json tokens n (suc fuel) i sell_pos book
        ≡ bids_loop floats json tokens n fuel
            (suc j)
            sell_pos
            (if b then book ++ set_bid quantity rate (book_new floats) ∷ [] else book)
  unfolding bids_loop
  bids_round fuel i j sell_pos book quantity rate b e ne below below' =
      let test : (i == 0) ≡ false = ground arith in
      let test' : (suc j == 0) ≡ false = ground arith in rw (test, below, e, test', below')

  bids_stop :
      (fuel i : ℕ) (sell_pos : ℤ) (book : List (Book D))
      → is_below floats json tokens n i sell_pos ≡ false
      → bids_loop floats json tokens n (suc fuel) i sell_pos book ≡ ok book
  unfolding bids_loop
  bids_stop fuel i sell_pos book below = rw below (ground arith)

  bids_last :
      (fuel i : ℕ) (sell_pos : ℤ) (book : List (Book D)) (quantity rate : D)
      → read_entry floats json tokens n i ≡ ok (0, quantity, rate)
      → i ≢ 0
      → is_below floats json tokens n i sell_pos ≡ true
      → bids_loop floats json tokens n (suc (suc fuel)) i sell_pos book ≡ ok book
  unfolding bids_loop
  bids_last fuel i sell_pos book quantity rate e ne below =
      let test : (i == 0) ≡ false = ground arith in rw (test, below, e)

  -- The round behind the last bid meets the first ask, or nothing, and adds nothing.
  bids_loop-end :
      (asks : List Entry) (fuel i s : ℕ) (v : View) (gap tail : List View) (book : List (Book D))
      → At json tokens n i (v ∷ (gap ++ sell_views asks tail))
      → s + length (sell_views asks tail) ≡ n
      → i ≢ 0
      → view_is (codes "Quantity") v ≡ false
      → lacks (codes "Quantity") gap ≡ true
      → AllInOrder asks
      → lacks (codes "Quantity") tail ≡ true
      → bids_loop floats json tokens n (suc (suc fuel)) i (pos s) book ≡ ok book
  unfolding equal
  bids_loop-end [] fuel i s v gap tail book at count ne nv lg o lt =
      let lacking = lacks-append (codes "Quantity") gap ((string, codes "sell") ∷ tail) lg lt in
      let (q, r, e) =
        read_entry-none floats json tokens n i (v ∷ (gap ++ sell_views [] tail)) at
          (rw (nv, lacking)) in
      bids_last fuel i (pos s) book q r e ne
        (lt→ltb i s (omega (arith, at.count, length-append {0} gap (sell_views [] tail))))
  bids_loop-end (a ∷ asks) fuel i s v gap tail book at count ne nv lg (lq, lr, o) lt =
      let at' = subst (λ vs. At json tokens n i (v ∷ vs)) (sym (behind_gap-views gap a _)) at in
      let lacking =
        lacks-append (codes "Quantity") gap ((string, codes "sell") ∷ a.gap_quantity) lg lq in
      let (j, after, e) =
        read_entry-next floats json tokens n i v (behind_gap gap a) _ at' nv lacking lr in
      let low : s ≤ suc j =
        omega (arith, after.count, length-entries_views (a ∷ []) (entries_views asks tail)) in
      bids_round (suc fuel) i j (pos s) book _ _ false e ne
        (lt→ltb i s (omega (arith, at.count, length-append {0} gap (sell_views (a ∷ asks) tail))))
        (past j low)
      ∙ bids_stop fuel (suc j) (pos s) book (past j low)
    where
      past : (j : ℕ) → s ≤ suc j → ltb (suc j) s ≡ false
      past j h = ground arith

  bids_loop-one_sided :
      (bids asks : List Entry) (fuel i s : ℕ) (v : View) (gap tail : List View)
      (book : List (Book D))
      → At json tokens n i (v ∷ entries_views bids (gap ++ sell_views asks tail))
      → s + length (sell_views asks tail) ≡ n
      → i ≢ 0
      → view_is (codes "Quantity") v ≡ false
      → AllInOrder bids
      → lacks (codes "Quantity") gap ≡ true
      → AllInOrder asks
      → lacks (codes "Quantity") tail ≡ true
      → length bids + 1 < fuel
      → bids_loop floats json tokens n fuel i (pos s) book
        ≡ ok (book ++ one_sided floats set_bid (side_of floats bids))
  bids_loop-one_sided bids asks zero i s v gap tail book at c ne nv ob lg oa lt h =
      absurd (omega arith)
  bids_loop-one_sided [] asks (suc zero) i s v gap tail book at c ne nv ob lg oa lt h =
      absurd (omega arith)
  bids_loop-one_sided [] asks (suc (suc fuel)) i s v gap tail book at c ne nv ob lg oa lt h =
      bids_loop-end asks fuel i s v gap tail book at c ne nv lg oa lt ∙ rw append-nil
  bids_loop-one_sided (b ∷ bids) asks (suc fuel) i s v gap tail book at c ne nv (lq, lr, ob) lg oa
        lt h =
      let rest = entries_views bids (gap ++ sell_views asks tail) in
      let (j, after, e) = read_entry-next floats json tokens n i v b rest at nv lq lr in
      let long = length-entries_views bids (gap ++ sell_views asks tail) in
      let longer = length-entries_views (b ∷ bids) (gap ++ sell_views asks tail) in
      let behind = length-append {0} gap (sell_views asks tail) in
      bids_round fuel i j (pos s) book _ _ true e ne
        (lt→ltb i s (omega (arith, at.count, longer, behind)))
        (lt→ltb (suc j) s (omega (arith, after.count, long, behind)))
      ∙ bids_loop-one_sided bids asks fuel (suc j) s (primitive, b.rate) gap tail _ after c
          (λ z. cc z) refl ob lg oa lt (omega arith)
      ∙ ap ok (append_assoc book _ _)

sell_is_no_quantity : view_is (codes "Quantity") (string, codes "sell") ≡ false
unfolding equal
sell_is_no_quantity = refl

from_start-out :
    {D : Type 0} (floats : Floats D) (json : Bytes) (tokens : List Token) (n k s : ℕ) (success : ℤ)
    (book out : List (Book D))
    → json_get_int_value json tokens n 0 (codes "success") (pos 0) ≡ ok (suc k, success)
    → is_zero success ≡ false
    → json_find_token json tokens n (suc k) (codes "sell") ≡ ok (pos s)
    → bids_loop floats json tokens n (n + 2) (suc k) (pos s) [] ≡ ok book
    → asks_loop floats json tokens n (n + 2) s (record { before = []; from_current = book })
      ≡ ok out
    → book_from_start floats json tokens n ≡ ok out
unfolding book_from_start
from_start-out floats json tokens n k s success book out e nz found built filled =
    let test : (suc k == 0) ≡ false = ground arith in rw (e, test, nz, found, built) filled

-- The views of a whole answer: the bids stand in front of the key "sell", the asks behind it.
abbrev pub answer_views :
    List View → Bytes → List Entry → List View → List Entry → List View → List View
answer_views gap success bids gap' asks tail =
    gap
    ++ (string, codes "success")
      ∷ (primitive, success)
      ∷ entries_views bids (gap' ++ sell_views asks tail)

module _ {D : Type 0} (floats : Floats D) (jsmn : Tokenizer) (json : Bytes) (tokens : List Token)
    (n : ℕ) (parsed : jsmn json 65535 ≡ (pos n, tokens)) where
  -- An answer whose "success" holds gives the book of its bids and asks, level by level in order:
  -- entry `k` has the k-th bid and the k-th ask, and 0 on the side that is shorter. What stands
  -- between the keys does not matter, as long as it holds none of them in front of its place.
  pub book_bittrex_parse_book-merged :
      (gap : List View) (success : Bytes) (bids : List Entry) (gap' : List View) (asks : List Entry)
      (tail : List View)
      → At json tokens n 0 (answer_views gap success bids gap' asks tail)
      → lacks (codes "success") gap ≡ true
      → is_zero (int_of_text success) ≡ false
      → AllInOrder bids
      → lacks (codes "Quantity") gap' ≡ true
      → lacks (codes "sell") (entries_views bids gap') ≡ true
      → AllInOrder asks
      → lacks (codes "Quantity") tail ≡ true
      → book_bittrex_parse_book floats jsmn (some json)
        ≡ ok (merged floats (side_of floats bids) (side_of floats asks))
  unfolding book_bittrex_parse_book
  book_bittrex_parse_book-merged gap success bids gap' asks tail at l nz ob lg ls oa lt =
      let (k, e, at') =
        json_get_int_value-gap json tokens n 0 (codes "success") (pos 0) gap _ success at l in
      let split = sym (entries_views-append bids gap' (sell_views asks tail)) in
      let at'' = subst (λ vs. At json tokens n (suc k) ((primitive, success) ∷ vs)) split at' in
      let seen = (primitive, success) ∷ entries_views bids gap' in
      let (found, behind) =
        json_find_token-gap json tokens n (suc k) (codes "sell") seen (entries_views asks tail) at''
          ls in
      let s = suc k + length seen in
      let at_sell = At-skip json tokens n (suc k) seen (sell_views asks tail) at'' in
      let long = length-entries_views bids (gap' ++ sell_views asks tail) in
      let long' = length-entries_views asks tail in
      let built =
        bids_loop-one_sided floats json tokens n bids asks (n + 2) (suc k) s (primitive, success)
          gap' tail [] at' (at_sell.count) (λ z. cc z) refl ob lg oa lt
          (omega (arith, at'.count, long)) in
      let filled =
        asks_loop-fill floats json tokens n asks (n + 2) s (string, codes "sell") tail _ at_sell
          (λ z. absurd (omega (arith, z))) sell_is_no_quantity oa lt
          (omega (arith, at_sell.count, long')) in
      rw parsed (
        from_start-out floats json tokens n k s (int_of_text success) _ _ e nz found built filled
        ∙ ap ok (fill_asks floats (side_of floats bids) (side_of floats asks) []))
