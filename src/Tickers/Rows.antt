-- ===== src/Tickers/Rows.antt =====
-- The search for the next market, in an answer that lays out its markets one by one.
use mathlib.Core.Path.{subst}
use ken_code_de_bridge.Base.{
  Bytes, List, [], append_assoc, arith, get_elem?, length, length-append, none, ok, pos, refl, some,
  suc, true, ℕ, ◌++◌, ◌+◌, ◌∷◌, ◌≡◌, ◌≤◌,
}
use ken_code_de_bridge.Json.{Token, json_find_token, string, token_text}
use ken_code_de_bridge.Json.Views.{
  At, At-head, At-skip, View, json_find_token-gap, json_find_token-none, lacks,
}
use ken_code_de_bridge.Tickers.{find_next, name_before, name_text}

-- A market of the answer: what is not looked at, the name, the bracket, and then the key.
pub record Row : Type 0 where
  pub gap : List View
  pub name : Bytes
  pub bracket : View

abbrev pub before_key : Row → List View
before_key r = r.gap ++ (string, r.name) ∷ r.bracket ∷ []

abbrev pub rows_views : Bytes → List Row → List View → List View
rows_views key [] rest = rest
rows_views key (r ∷ rows) rest = before_key r ++ (string, key) ∷ rows_views key rows rest

-- No name is the key, and nothing between is.
abbrev pub AllInOrder : Bytes → List Row → Type 0
AllInOrder key [] = Unit
AllInOrder key (r ∷ rows) = (lacks key (before_key r) ≡ true) × AllInOrder key rows

pub length-rows_views :
    (key : Bytes) (rows : List Row) (rest : List View)
    → length rows + length rest ≤ length (rows_views key rows rest)
length-rows_views key [] rest = omega arith
length-rows_views key (r ∷ rows) rest =
    omega (arith, length-append {0} (before_key r), length-rows_views key rows rest)

module _ (key json : Bytes) (tokens : List Token) (n : ℕ) where
  next_named :
      (i k : ℕ) (t : Token) (name : Bytes)
      → json_find_token json tokens n i key ≡ ok (pos (suc (suc k)))
      → get_elem? tokens k ≡ some t
      → t.type ≡ string
      → token_text json t ≡ ok name
      → find_next key json tokens n i ≡ ok (suc (suc k), some name)
  unfolding find_next name_before name_text
  next_named i k t name e there is reads = rw (e, there, is, reads)

  pub find_next-none :
      (i : ℕ) (vs : List View)
      → At json tokens n i vs
      → lacks key vs ≡ true
      → find_next key json tokens n i ≡ ok (0, none)
  unfolding find_next name_before
  find_next-none i vs at l = rw (json_find_token-none json tokens n i key vs at l)

  pub find_next-row :
      (i : ℕ) (r : Row) (rest : List View)
      → At json tokens n i (before_key r ++ (string, key) ∷ rest)
      → lacks key (before_key r) ≡ true
      → (k : ℕ) × (find_next key json tokens n i ≡ ok (suc k, some r.name))
        × At json tokens n (suc k + 1) rest
  find_next-row i r rest at l =
      let (found, after) = json_find_token-gap json tokens n i key (before_key r) rest at l in
      let split = append_assoc r.gap ((string, r.name) ∷ r.bracket ∷ []) ((string, key) ∷ rest) in
      let at_name = At-skip json tokens n i r.gap _ (subst (At json tokens n i) split at) in
      let (t, there, is, reads, later) = At-head json tokens n _ _ _ at_name in
      let e : i + length (before_key r) ≡ suc (suc (i + length r.gap)) =
        omega (arith, length-append {0} r.gap ((string, r.name) ∷ r.bracket ∷ [])) in
      (
        suc (i + length r.gap),
        next_named i (i + length r.gap) t r.name (rw e at found) there is reads,
        rw e at after,
      )

  -- From the key on, the search stays there.
  pub find_next-stays :
      (i : ℕ) (r : Row) (rest : List View)
      → At json tokens n i (before_key r ++ (string, key) ∷ rest)
      → lacks key (before_key r) ≡ true
      → (k : ℕ) × (find_next key json tokens n i ≡ ok (suc k, some r.name))
        × (find_next key json tokens n (suc k) ≡ ok (suc k, some r.name))
  find_next-stays i r rest at l =
      let (found, after) = json_find_token-gap json tokens n i key (before_key r) rest at l in
      let split = append_assoc r.gap ((string, r.name) ∷ r.bracket ∷ []) ((string, key) ∷ rest) in
      let at_name = At-skip json tokens n i r.gap _ (subst (At json tokens n i) split at) in
      let (t, there, is, reads, later) = At-head json tokens n _ _ _ at_name in
      let at_key = At-skip json tokens n i (before_key r) _ at in
      let (again, _) =
        json_find_token-gap json tokens n (i + length (before_key r)) key [] rest at_key refl in
      let e : i + length (before_key r) ≡ suc (suc (i + length r.gap)) =
        omega (arith, length-append {0} r.gap ((string, r.name) ∷ r.bracket ∷ [])) in
      let e' : i + length (before_key r) + 0 ≡ i + length (before_key r) = omega arith in
      let k = i + length r.gap in
      (
        suc k,
        next_named i k t r.name (rw e at found) there is reads,
        next_named (suc (suc k)) k t r.name (rw e at (rw e' at again)) there is reads,
      )
