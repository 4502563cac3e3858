-- ===== src/Levels/First.antt =====
-- The first loop over a side of a book that is laid out level by level.
use ken_code_de_bridge.Base.{
  Bool, Bytes, Floats, List, [], ap, append-nil, append_assoc, arith, false, if◌then◌else◌, length,
  ltb, ok, pos, refl, suc, true, zero, ℕ, ◌*◌, ◌++◌, ◌+◌, ◌<◌, ◌==◌, ◌∙◌, ◌∷◌, ◌≡◌, ◌≢◌,
}
use ken_code_de_bridge.Book.{Book, book_new, zero_double}
use ken_code_de_bridge.Book.Merge.{Setter, one_sided}
use ken_code_de_bridge.Json.{Token}
use ken_code_de_bridge.Json.Numbers.{json_get_double-view, number_or}
use ken_code_de_bridge.Json.Views.{At, At-head, View}
use ken_code_de_bridge.Levels.{first_loop, read_number}

-- A level of the answer: the bracket, and two numbers.
pub record Level : Type 0 where
  pub bracket : View
  pub first : View
  pub second : View

abbrev pub level_views : Level → List View → List View
level_views l rest = l.bracket ∷ l.first ∷ l.second ∷ rest

abbrev pub levels_views : List Level → List View → List View
levels_views [] rest = rest
levels_views (l ∷ levels) rest = level_views l (levels_views levels rest)

pub length-levels_views :
    (levels : List Level) (rest : List View)
    → length (levels_views levels rest) ≡ 3 * length levels + length rest
length-levels_views [] rest = omega arith
length-levels_views (l ∷ levels) rest = omega (arith, length-levels_views levels rest)

module _ {D : Type 0} (floats : Floats D) where
  abbrev pub number : View → D
  number = number_or floats (zero_double floats)

  abbrev pub side_of : List Level → List (D × D)
  side_of [] = []
  side_of (l ∷ levels) = (number l.first, number l.second) ∷ side_of levels

  module _ (json : Bytes) (tokens : List Token) (n : ℕ) where
    pub read_number-view :
        (i : ℕ) (v : View) (vs : List View)
        → At json tokens n i (v ∷ vs)
        → (read_number floats json tokens i ≡ ok (number v)) × At json tokens n (i + 1) vs
    unfolding read_number
    read_number-view i v vs at =
        let (t, there, is, reads, later) = At-head json tokens n i v vs at in
        (rw there (json_get_double-view floats json t v _ is reads), later)

    first_round :
        (write : Setter floats) (fuel i stop : ℕ) (book : List (Book D)) (first second : D)
        (b : Bool)
        → read_number floats json tokens i ≡ ok first
        → read_number floats json tokens (i + 1) ≡ ok second
        → i ≢ 0
        → ltb i stop ≡ true
        → ltb (i + 3) stop ≡ b
        → first_loop floats json tokens write (suc fuel) i (pos stop) book ≡ (
            if b
            then first_loop floats json tokens write fuel
                (i + 3)
                (pos stop)
                (book ++ write first second (book_new floats) ∷ [])
            else first_loop floats json tokens write fuel 0 (pos stop) book)
    unfolding first_loop
    first_round write fuel i stop book first second b e e' ne below next =
        let test : (i == 0) ≡ false = ground arith in rw (test, below, e, e', next)

    first_loop-stop :
        (write : Setter floats) (fuel stop : ℕ) (book : List (Book D))
        → first_loop floats json tokens write (suc fuel) 0 (pos stop) book ≡ ok book
    unfolding first_loop
    first_loop-stop write fuel stop book = refl

    -- The loop stops in front of the last level.
    pub first_loop-one_sided :
        (write : Setter floats) (levels : List Level) (last : Level) (fuel i stop : ℕ)
        (rest : List View) (book : List (Book D))
        → At json tokens n i (levels_views levels (level_views last rest))
        → stop ≡ i + 3 * length levels + 3
        → length levels + 1 < fuel
        → first_loop floats json tokens write fuel (i + 1) (pos stop) book
          ≡ ok (book ++ one_sided floats write (side_of levels))
    first_loop-one_sided write levels last zero i stop rest book at e h = absurd (omega arith)
    first_loop-one_sided write [] last (suc zero) i stop rest book at e h = absurd (omega arith)
    first_loop-one_sided write [] last (suc (suc fuel)) i stop rest book at e h =
        let (t, there, is, reads, at') = At-head json tokens n i _ _ at in
        let (r, at'') = read_number-view (i + 1) last.first _ at' in
        let (r', later) = read_number-view (i + 1 + 1) last.second _ at'' in
        first_round write (suc fuel) (i + 1) stop book _ _ false r r'
          (λ z. absurd (omega (arith, z))) (ground arith) (ground arith)
        ∙ first_loop-stop write fuel stop book
        ∙ rw append-nil
    first_loop-one_sided write (l ∷ levels) last (suc fuel) i stop rest book at e h =
        let (t, there, is, reads, at') = At-head json tokens n i _ _ at in
        let (r, at'') = read_number-view (i + 1) l.first _ at' in
        let (r', later) = read_number-view (i + 1 + 1) l.second _ at'' in
        let e' : i + 1 + 3 ≡ i + 1 + 1 + 1 + 1 = omega arith in
        first_round write fuel (i + 1) stop book _ _ true r r' (λ z. absurd (omega (arith, z)))
          (ground arith) (ground arith)
        ∙ rw e' (
            first_loop-one_sided write levels last fuel (i + 1 + 1 + 1) stop rest
              (book ++ write (number l.first) (number l.second) (book_new floats) ∷ []) later
              (omega arith) (omega arith))
        ∙ ap ok
            (append_assoc book (write (number l.first) (number l.second) (book_new floats) ∷ []) _)

pub levels_views-append :
    (levels : List Level) (xs ys : List View)
    → levels_views levels xs ++ ys ≡ levels_views levels (xs ++ ys)
levels_views-append [] xs ys = refl
levels_views-append (l ∷ levels) xs ys =
    ap (λ vs. l.bracket ∷ l.first ∷ l.second ∷ vs) (levels_views-append levels xs ys)
