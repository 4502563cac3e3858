-- ===== src/Btc38/Books.antt =====
-- `btc38_parse_book` over an answer that lays out bids, then asks, level by level.
use mathlib.Core.Path.{subst}
use ken_code_de_bridge.Base.{
  Bool, Bytes, Floats, List, [], ap, append_assoc, arith, codes, false, if◌then◌else◌, length,
  length-append, ltb, ok, pos, refl, suc, sym, true, zero, ℕ, ◌*◌, ◌++◌, ◌+◌, ◌<◌, ◌==◌, ◌∙◌, ◌∷◌,
  ◌≡◌, ◌≢◌, ◌≤◌,
}
use ken_code_de_bridge.Book.{Book, Cursor, set_ask, set_bid, set_current, whole}
use ken_code_de_bridge.Book.Merge.{fill, fill_asks, merged, one_sided}
use ken_code_de_bridge.Json.{Token, Tokenizer, json_find_token, string}
use ken_code_de_bridge.Json.Views.{At, At-head, View, json_find_token-gap, lacks}
use ken_code_de_bridge.Levels.{first_loop, read_number}
use ken_code_de_bridge.Levels.First.{
  Level, first_loop-one_sided, length-levels_views, level_views, levels_views, levels_views-append,
  number, read_number-view, side_of,
}
use ken_code_de_bridge.Btc38.{asks_loop, book_of_tokens, btc38_parse_book}

module _ {D : Type 0} (floats : Floats D) (json : Bytes) (tokens : List Token) (n : ℕ) where
  asks_round :
      (fuel i : ℕ) (c : Cursor D) (first second : D) (b : Bool)
      → read_number floats json tokens i ≡ ok first
      → read_number floats json tokens (i + 1) ≡ ok second
      → i ≢ 0
      → ltb n (i + 3) ≡ b
      → asks_loop floats json tokens n (suc fuel) i c ≡ (
          if b
          then asks_loop floats json tokens n fuel 0 c
          else asks_loop floats json tokens n fuel
              (i + 3)
              (set_current floats (set_ask first second) c))
  unfolding asks_loop
  asks_round fuel i c first second b e e' ne past =
      let test : (i == 0) ≡ false = ground arith in rw (test, e, e', past)

  asks_loop-stop :
      (fuel : ℕ) (c : Cursor D) → asks_loop floats json tokens n (suc fuel) 0 c ≡ ok (whole c)
  unfolding asks_loop
  asks_loop-stop fuel c = refl

  -- The loop drops the level at the end of the answer.
  asks_loop-fill :
      (asks : List Level) (last : Level) (fuel i : ℕ) (c : Cursor D)
      → At json tokens n i (levels_views asks (level_views last []))
      → length asks + 1 < fuel
      → asks_loop floats json tokens n fuel (i + 1) c
        ≡ ok (whole (fill floats set_ask (side_of floats asks) c))
  asks_loop-fill asks last zero i c at h = absurd (omega arith)
  asks_loop-fill [] last (suc zero) i c at h = absurd (omega arith)
  asks_loop-fill [] last (suc (suc fuel)) i c at h =
      let (t, there, is, reads, at') = At-head json tokens n i _ _ at in
      let (r, at'') = read_number-view floats json tokens n (i + 1) last.first _ at' in
      let (r', later) = read_number-view floats json tokens n (i + 1 + 1) last.second _ at'' in
      let past : n < i + 1 + 3 = omega (arith, at.count) in
      asks_round (suc fuel) (i + 1) c _ _ true r r' (λ z. absurd (omega (arith, z))) (ground arith)
      ∙ asks_loop-stop fuel c
  asks_loop-fill (a ∷ asks) last (suc fuel) i c at h =
      let (t, there, is, reads, at') = At-head json tokens n i _ _ at in
      let (r, at'') = read_number-view floats json tokens n (i + 1) a.first _ at' in
      let (r', later) = read_number-view floats json tokens n (i + 1 + 1) a.second _ at'' in
      let e' : i + 1 + 3 ≡ i + 1 + 1 + 1 + 1 = omega arith in
      let inside : i + 1 + 3 ≤ n =
        omega (arith, later.count, length-levels_views asks (level_views last [])) in
      asks_round fuel (i + 1) c _ _ false r r' (λ z. absurd (omega (arith, z))) (ground arith)
      ∙ rw e' (
          asks_loop-fill asks last fuel (i + 1 + 1 + 1)
            (set_current floats (set_ask (number floats a.first) (number floats a.second)) c) later
            (omega arith))

module _ {D : Type 0} (floats : Floats D) (json : Bytes) (tokens : List Token) (n : ℕ) where
  of_tokens-out :
      (b s : ℕ) (book out : List (Book D))
      → json_find_token json tokens n 0 (codes "asks") ≡ ok (pos s)
      → s ≢ 0
      → json_find_token json tokens n 0 (codes "bids") ≡ ok (pos b)
      → first_loop floats json tokens set_bid (n + 2) (b + 3) (pos s) [] ≡ ok book
      → asks_loop floats json tokens n (n + 2) (s + 3) (record { before = []; from_current = book })
        ≡ ok out
      → book_of_tokens floats json tokens n ≡ ok out
  unfolding book_of_tokens
  of_tokens-out b zero book out e ne e' first second = absurd (ne refl)
  of_tokens-out b (suc s) book out e ne e' first second = rw (e, e', first) second

-- What stands in front of the key "asks".
abbrev pub bids_views : List View → View → List Level → Level → List View → List View
bids_views front bracket bids last_bid rest =
    front ++ (string, codes "bids") ∷ bracket ∷ levels_views bids (level_views last_bid rest)

bids_views-append :
    (front : List View) (bracket : View) (bids : List Level) (last_bid : Level) (rest : List View)
    → bids_views front bracket bids last_bid [] ++ rest
      ≡ bids_views front bracket bids last_bid rest
bids_views-append front bracket bids last_bid rest =
    append_assoc front _ rest
    ∙ ap (λ vs. front ++ (string, codes "bids") ∷ bracket ∷ vs)
        (levels_views-append bids (level_views last_bid []) rest)

abbrev asks_views : View → List Level → Level → List View
asks_views bracket asks last_ask =
    (string, codes "asks") ∷ bracket ∷ levels_views asks (level_views last_ask [])

-- An answer that lays out "bids", level by level, and then "asks", to its end.
abbrev pub answer_views :
    List View → View → List Level → Level → View → List Level → Level → List View
answer_views front bracket bids last_bid bracket' asks last_ask =
    bids_views front bracket bids last_bid (asks_views bracket' asks last_ask)

module _ {D : Type 0} (floats : Floats D) (jsmn : Tokenizer) (json : Bytes) (tokens : List Token)
    (n : ℕ) (parsed : jsmn json 65535 ≡ (pos n, tokens)) where
  -- The book of such an answer has the bids and the asks level by level, but for the last of either
  -- side, with 0 on the side that is shorter.
  pub btc38_parse_book-merged :
      (front : List View) (bracket : View) (bids : List Level) (last_bid : Level) (bracket' : View)
      (asks : List Level) (last_ask : Level)
      → At json tokens n 0 (answer_views front bracket bids last_bid bracket' asks last_ask)
      → lacks (codes "bids") front ≡ true
      → lacks (codes "asks") (bids_views front bracket bids last_bid []) ≡ true
      → btc38_parse_book floats jsmn json
        ≡ ok (merged floats (side_of floats bids) (side_of floats asks))
  unfolding btc38_parse_book
  btc38_parse_book-merged front bracket bids last_bid bracket' asks last_ask at lb la =
      let seen = bids_views front bracket bids last_bid [] in
      let later = asks_views bracket' asks last_ask in
      let at' =
        subst (At json tokens n 0) (sym (bids_views-append front bracket bids last_bid later)) at in
      let (found, at_a) = json_find_token-gap json tokens n 0 (codes "asks") seen _ at' la in
      let (found', at_b) = json_find_token-gap json tokens n 0 (codes "bids") front _ at lb in
      let (t, there, is, reads, at_levels) = At-head json tokens n _ _ _ at_b in
      let (t', there', is', reads', at_levels') = At-head json tokens n _ _ _ at_a in
      let s = 0 + length seen in
      let size : s ≡ 0 + length front + 1 + 1 + 3 * length bids + 3 =
        omega
          (arith, length-append {0} front, length-levels_views bids (level_views last_bid [])) in
      let e : 0 + length front + 1 + 1 + 1 ≡ 0 + length front + 3 = omega arith in
      let e' : s + 1 + 1 + 1 ≡ s + 3 = omega arith in
      let built =
        first_loop-one_sided floats json tokens n set_bid bids last_bid (n + 2)
          (0 + length front + 1 + 1) s later [] at_levels size
          (omega (arith, at_levels.count, length-levels_views bids (level_views last_bid later))) in
      let filled =
        asks_loop-fill floats json tokens n asks last_ask (n + 2) (s + 1 + 1)
          (record { before = []; from_current = one_sided floats set_bid (side_of floats bids) })
          at_levels'
          (omega (arith, at_levels'.count, length-levels_views asks (level_views last_ask []))) in
      rw parsed (
        of_tokens-out floats json tokens n (0 + length front) s
          (one_sided floats set_bid (side_of floats bids)) _ found
          (λ z. absurd (omega (arith, z, size))) found' (rw e at built) (rw e' at filled)
        ∙ ap ok (fill_asks floats (side_of floats bids) (side_of floats asks) []))
