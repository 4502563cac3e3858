-- ===== src/Poloniex/Books.antt =====
-- `poloniex_parse_book` over an answer that lays out asks, bids, and two fields behind them.
use mathlib.Core.Path.{subst}
use ken_code_de_bridge.Base.{
  Bool, Bytes, Floats, List, [], ap, append_assoc, arith, codes, false, if◌then◌else◌, leb, length,
  length-append, ltb, ok, pos, refl, suc, sym, true, zero, ℕ, ◌*◌, ◌++◌, ◌+◌, ◌<◌, ◌==◌, ◌∙◌, ◌∷◌,
  ◌≡◌, ◌≢◌, ◌≤◌,
}
use ken_code_de_bridge.Book.{Book, Cursor, set_ask, set_bid, set_current, whole}
use ken_code_de_bridge.Book.Merge.{fill, fill_bids, merged, one_sided}
use ken_code_de_bridge.Json.{Token, Tokenizer, json_find_token, string}
use ken_code_de_bridge.Json.Views.{At, At-head, View, json_find_token-gap, lacks}
use ken_code_de_bridge.Levels.{first_loop, read_number}
use ken_code_de_bridge.Levels.First.{
  Level, first_loop-one_sided, length-levels_views, level_views, levels_views, levels_views-append,
  number, read_number-view, side_of,
}
use ken_code_de_bridge.Poloniex.{bids_loop, book_from_bids, book_of_tokens, poloniex_parse_book}

-- What stands behind the bids: "isFrozen" and "seq" with their values.
pub record Ending : Type 0 where
  pub key : View
  pub value : View
  pub key' : View
  pub value' : View

abbrev pub ending_views : Ending → List View
ending_views e = e.key ∷ e.value ∷ e.key' ∷ e.value' ∷ []

module _ {D : Type 0} (floats : Floats D) (json : Bytes) (tokens : List Token) (n : ℕ) where
  bids_round :
      (fuel i : ℕ) (c : Cursor D) (first second : D) (b : Bool)
      → read_number floats json tokens i ≡ ok first
      → read_number floats json tokens (i + 1) ≡ ok second
      → i ≢ 0
      → i + 1 < n
      → leb n (i + 3) ≡ b
      → bids_loop floats json tokens n (suc fuel) i c ≡ (
          if b
          then bids_loop floats json tokens n fuel 0 c
          else bids_loop floats json tokens n fuel
              (i + 3)
              (set_current floats (set_bid first second) c))
  unfolding bids_loop
  bids_round fuel i c first second b e e' ne inside past =
      let test : (i == 0) ≡ false = ground arith in
      let below : ltb i n ≡ true = ground arith in
      let below' : leb n (i + 1) ≡ false = ground arith in rw (test, below, e, below', e', past)

  bids_loop-stop :
      (fuel : ℕ) (c : Cursor D) → bids_loop floats json tokens n (suc fuel) 0 c ≡ ok (whole c)
  unfolding bids_loop
  bids_loop-stop fuel c = refl

  -- The last round reads what stands behind the bids, and adds nothing.
  bids_loop-fill :
      (bids : List Level) (ending : Ending) (fuel i : ℕ) (c : Cursor D)
      → At json tokens n i (levels_views bids (ending_views ending))
      → length bids + 1 < fuel
      → bids_loop floats json tokens n fuel (i + 1) c
        ≡ ok (whole (fill floats set_bid (side_of floats bids) c))
  bids_loop-fill bids ending zero i c at h = absurd (omega arith)
  bids_loop-fill [] ending (suc zero) i c at h = absurd (omega arith)
  bids_loop-fill [] ending (suc (suc fuel)) i c at h =
      let (t, there, is, reads, at') = At-head json tokens n i _ _ at in
      let (r, at'') = read_number-view floats json tokens n (i + 1) ending.value _ at' in
      let (r', later) = read_number-view floats json tokens n (i + 1 + 1) ending.key' _ at'' in
      let past : n ≤ i + 1 + 3 = omega (arith, at.count) in
      bids_round (suc fuel) (i + 1) c _ _ true r r' (λ z. absurd (omega (arith, z)))
        (omega (arith, at.count)) (ground arith)
      ∙ bids_loop-stop fuel c
  bids_loop-fill (b ∷ bids) ending (suc fuel) i c at h =
      let (t, there, is, reads, at') = At-head json tokens n i _ _ at in
      let (r, at'') = read_number-view floats json tokens n (i + 1) b.first _ at' in
      let (r', later) = read_number-view floats json tokens n (i + 1 + 1) b.second _ at'' in
      let e' : i + 1 + 3 ≡ i + 1 + 1 + 1 + 1 = omega arith in
      let inside : i + 1 + 3 < n =
        omega (arith, later.count, length-levels_views bids (ending_views ending)) in
      bids_round fuel (i + 1) c _ _ false r r' (λ z. absurd (omega (arith, z))) (omega arith)
        (ground arith)
      ∙ rw e' (
          bids_loop-fill bids ending fuel (i + 1 + 1 + 1)
            (set_current floats (set_bid (number floats b.first) (number floats b.second)) c) later
            (omega arith))

  of_tokens-out :
      (a s : ℕ) (book out : List (Book D))
      → json_find_token json tokens n 0 (codes "bids") ≡ ok (pos s)
      → s ≢ 0
      → json_find_token json tokens n 0 (codes "asks") ≡ ok (pos a)
      → a ≢ 0
      → first_loop floats json tokens set_ask (n + 2) (a + 3) (pos s) [] ≡ ok book
      → bids_loop floats json tokens n (n + 2) (s + 3) (record { before = []; from_current = book })
        ≡ ok out
      → book_of_tokens floats json tokens n ≡ ok out
  unfolding book_of_tokens book_from_bids
  of_tokens-out a zero book out e ne e' ne' first second = absurd (ne refl)
  of_tokens-out zero (suc s) book out e ne e' ne' first second = absurd (ne' refl)
  of_tokens-out (suc a) (suc s) book out e ne e' ne' first second = rw (e, e', first) second

-- What stands in front of the key "bids".
abbrev pub asks_views : List View → View → List Level → Level → List View → List View
asks_views front bracket asks last_ask rest =
    front ++ (string, codes "asks") ∷ bracket ∷ levels_views asks (level_views last_ask rest)

asks_views-append :
    (front : List View) (bracket : View) (asks : List Level) (last_ask : Level) (rest : List View)
    → asks_views front bracket asks last_ask [] ++ rest
      ≡ asks_views front bracket asks last_ask rest
asks_views-append front bracket asks last_ask rest =
    append_assoc front _ rest
    ∙ ap (λ vs. front ++ (string, codes "asks") ∷ bracket ∷ vs)
        (levels_views-append asks (level_views last_ask []) rest)

abbrev bids_views : View → List Level → Ending → List View
bids_views bracket bids ending =
    (string, codes "bids") ∷ bracket ∷ levels_views bids (ending_views ending)

-- An answer that lays out "asks", level by level, then "bids", then the two fields.
abbrev pub answer_views :
    View → List View → View → List Level → Level → View → List Level → Ending → List View
answer_views opening front bracket asks last_ask bracket' bids ending =
    asks_views (opening ∷ front) bracket asks last_ask (bids_views bracket' bids ending)

module _ {D : Type 0} (floats : Floats D) (jsmn : Tokenizer) (json : Bytes) (tokens : List Token)
    (n : ℕ) (parsed : jsmn json 65535 ≡ (pos n, tokens)) where
  -- The book of such an answer has every bid, and the asks but for the last, level by level, with 0
  -- on the side that is shorter.
  pub poloniex_parse_book-merged :
      (opening : View) (front : List View) (bracket : View) (asks : List Level) (last_ask : Level)
      (bracket' : View) (bids : List Level) (ending : Ending)
      → At json tokens n 0 (answer_views opening front bracket asks last_ask bracket' bids ending)
      → lacks (codes "asks") (opening ∷ front) ≡ true
      → lacks (codes "bids") (asks_views (opening ∷ front) bracket asks last_ask []) ≡ true
      → poloniex_parse_book floats jsmn json
        ≡ ok (merged floats (side_of floats bids) (side_of floats asks))
  unfolding poloniex_parse_book
  poloniex_parse_book-merged opening front bracket asks last_ask bracket' bids ending at la lb =
      let seen = asks_views (opening ∷ front) bracket asks last_ask [] in
      let later = bids_views bracket' bids ending in
      let split = asks_views-append (opening ∷ front) bracket asks last_ask later in
      let at' = subst (At json tokens n 0) (sym split) at in
      let (found, at_b) = json_find_token-gap json tokens n 0 (codes "bids") seen _ at' lb in
      let (found', at_a) =
        json_find_token-gap json tokens n 0 (codes "asks") (opening ∷ front) _ at la in
      let (t, there, is, reads, at_levels) = At-head json tokens n _ _ _ at_a in
      let (t', there', is', reads', at_levels') = At-head json tokens n _ _ _ at_b in
      let s = 0 + length seen in
      let a = 0 + length (opening ∷ front) in
      let size : s ≡ a + 1 + 1 + 3 * length asks + 3 = omega (
        arith,
        length-append {0} (opening ∷ front),
        length-levels_views asks (level_views last_ask []),
      ) in
      let e : a + 1 + 1 + 1 ≡ a + 3 = omega arith in
      let e' : s + 1 + 1 + 1 ≡ s + 3 = omega arith in
      let built =
        first_loop-one_sided floats json tokens n set_ask asks last_ask (n + 2) (a + 1 + 1) s later
          [] at_levels size
          (omega (arith, at_levels.count, length-levels_views asks (level_views last_ask later))) in
      let filled =
        bids_loop-fill floats json tokens n bids ending (n + 2) (s + 1 + 1)
          (record { before = []; from_current = one_sided floats set_ask (side_of floats asks) })
          at_levels'
          (omega (arith, at_levels'.count, length-levels_views bids (ending_views ending))) in
      rw parsed (
        of_tokens-out floats json tokens n a s (one_sided floats set_ask (side_of floats asks)) _
          found (λ z. absurd (omega (arith, z, size))) found' (λ z. absurd (omega (arith, z)))
          (rw e at built) (rw e' at filled)
        ∙ ap ok (fill_bids floats (side_of floats asks) (side_of floats bids) []))
