-- ===== src/Json/Views.antt =====
-- Tokens as what they say: a type and a text. A search over a text that is laid out as
-- `gap ++ (string, tag) ∷ rest`, with no such key in the gap, goes to the end of the gap.
use ken_code_de_bridge.Base.{
  Bool, Bytes, List, [], arith, drop, equal, equal_refl, false, get_elem?, if◌then◌else◌, length,
  negsuc, not, ok, pos, refl, some, suc, true, zero, ℕ, ◌&&◌, ◌++◌, ◌+◌, ◌-◌, ◌<◌, ◌∙◌, ◌∷◌, ◌≡◌,
}
use ken_code_de_bridge.Json.{
  Token, TokenType, find_from, json_find_token, names_tag, string, token_text,
}

abbrev pub View : Type 0
View = TokenType × Bytes

abbrev pub view_is : Bytes → View → Bool
view_is tag (string, str) = equal str tag
view_is tag _ = false

-- No view of the list is a key with the tag.
abbrev pub lacks : Bytes → List View → Bool
lacks tag [] = true
lacks tag (v ∷ vs) = not (view_is tag v) && lacks tag vs

abbrev pub Views : Bytes → List Token → List View → Type 0
Views json [] [] = Unit
Views json (t ∷ ts) (v ∷ vs) = (t.type ≡ v.0) × (token_text json t ≡ ok v.1) × Views json ts vs
Views json _ _ = ⊥

-- The tokens from `i` on say `vs`, and there are `n` in all.
pub record At (json : Bytes) (tokens : List Token) (n i : ℕ) (vs : List View) : Type 0 where
  pub says : Views json (drop i tokens) vs
  pub count : i + length vs ≡ n

pub drop_step {ℓ} :
    {A : Type ℓ} (xs : List A) (i : ℕ) (y : A) (ys : List A)
    → drop i xs ≡ y ∷ ys
    → (get_elem? xs i ≡ some y) × (drop (i + 1) xs ≡ ys)
drop_step [] zero y ys e = cc
drop_step [] (suc i) y ys e = cc
drop_step (x ∷ xs) zero y ys e = (cc, cc)
drop_step (x ∷ xs) (suc i) y ys e =
    let (there, later) = drop_step xs i y ys e in
    (there, let e' : suc i + 1 ≡ suc (i + 1) = omega arith in rw e' later)

-- The first of the views is that of a token at `i`.
pub At-head :
    (json : Bytes) (tokens : List Token) (n i : ℕ) (v : View) (vs : List View)
    → At json tokens n i (v ∷ vs)
    → (t : Token) × (get_elem? tokens i ≡ some t)
      × (t.type ≡ v.0)
      × (token_text json t ≡ ok v.1)
      × At json tokens n (i + 1) vs
At-head json tokens n i v vs at = go (drop i tokens) refl at.says
  where
    go :
        (ts : List Token)
        → drop i tokens ≡ ts
        → Views json ts (v ∷ vs)
        → (t : Token) × (get_elem? tokens i ≡ some t)
          × (t.type ≡ v.0)
          × (token_text json t ≡ ok v.1)
          × At json tokens n (i + 1) vs
    go [] e says = absurd says
    go (t ∷ ts) e (is, reads, later) =
        let (there, after) = drop_step tokens i t ts e in
        (t, there, is, reads, record { says = rw after later; count = omega (arith, at.count) })

and-lacks : (b c : Bool) → (not b && c) ≡ true → (b ≡ false) × (c ≡ true)
and-lacks true c h = cc
and-lacks false c h = (refl, h)

names_tag-view :
    (json : Bytes) (t : Token) (type : TokenType) (str tag : Bytes)
    → token_text json t ≡ ok str
    → names_tag json t type tag ≡ ok (view_is tag (type, str))
unfolding names_tag
names_tag-view json t string str tag reads = rw reads
names_tag-view json t _ str tag reads = refl

-- One round of the search, at a token with view `v`.
find_from-view :
    (json : Bytes) (tokens : List Token) (n i rounds : ℕ) (tag : Bytes) (v : View) (vs : List View)
    → At json tokens n i (v ∷ vs)
    → find_from json tokens tag i (suc rounds)
      ≡ (if view_is tag v then ok (pos i) else find_from json tokens tag (i + 1) rounds)
unfolding find_from
find_from-view json tokens n i rounds tag (type, str) vs at =
    let (t, there, is, reads, later) = At-head json tokens n i (type, str) vs at in
    rw (there, is, names_tag-view json t type str tag reads)

find_from-none :
    (json : Bytes) (tokens : List Token) (n i rounds : ℕ) (tag : Bytes) (vs : List View)
    → At json tokens n i vs
    → rounds ≡ length vs
    → lacks tag vs ≡ true
    → find_from json tokens tag i rounds ≡ ok (negsuc 0)
find_from-none json tokens n i zero tag vs at e l = unfold find_from in refl
find_from-none json tokens n i (suc rounds) tag [] at e l = absurd (omega arith)
find_from-none json tokens n i (suc rounds) tag (v ∷ vs) at e l =
    let (t, there, is, reads, later) = At-head json tokens n i v vs at in
    let (head, rest) = and-lacks (view_is tag v) (lacks tag vs) l in
    find_from-view json tokens n i rounds tag v vs at
    ∙ rw head (find_from-none json tokens n (i + 1) rounds tag vs later (omega arith) rest)

find_from-gap :
    (json : Bytes) (tokens : List Token) (n i rounds : ℕ) (tag : Bytes) (gap rest : List View)
    → At json tokens n i (gap ++ (string, tag) ∷ rest)
    → length gap < rounds
    → lacks tag gap ≡ true
    → (find_from json tokens tag i rounds ≡ ok (pos (i + length gap)))
      × At json tokens n (i + length gap + 1) rest
find_from-gap json tokens n i zero tag gap rest at h l = absurd (omega arith)
find_from-gap json tokens n i (suc rounds) tag [] rest at h l =
    let (t, there, is, reads, later) = At-head json tokens n i _ _ at in
    let e : i + 0 ≡ i = omega arith in
    rw e (find_from-view json tokens n i rounds tag _ _ at ∙ rw equal_refl, later)
find_from-gap json tokens n i (suc rounds) tag (v ∷ gap) rest at h l =
    let (t, there, is, reads, later) = At-head json tokens n i _ _ at in
    let (head, others) = and-lacks (view_is tag v) (lacks tag gap) l in
    let (found, after) =
      find_from-gap json tokens n (i + 1) rounds tag gap rest later (omega arith) others in
    let e : i + suc (length gap) ≡ i + 1 + length gap = omega arith in
    rw e (find_from-view json tokens n i rounds tag _ _ at ∙ rw head found, after)

length-gap : (gap rest : List View) (v : View) → length gap < length (gap ++ v ∷ rest)
length-gap [] rest v = omega arith
length-gap (_ ∷ gap) rest v = omega (arith, length-gap gap rest v)

module _ (json : Bytes) (tokens : List Token) (n i : ℕ) (tag : Bytes) where
  -- A search that finds nothing.
  pub json_find_token-none :
      (vs : List View)
      → At json tokens n i vs
      → lacks tag vs ≡ true
      → json_find_token json tokens n i tag ≡ ok (negsuc 0)
  unfolding json_find_token
  json_find_token-none vs at l =
      find_from-none json tokens n i (n - i) tag vs at (omega (arith, at.count)) l

  -- A search that goes to the end of the gap.
  pub json_find_token-gap :
      (gap rest : List View)
      → At json tokens n i (gap ++ (string, tag) ∷ rest)
      → lacks tag gap ≡ true
      → (json_find_token json tokens n i tag ≡ ok (pos (i + length gap)))
        × At json tokens n (i + length gap + 1) rest
  unfolding json_find_token
  json_find_token-gap gap rest at l =
      find_from-gap json tokens n i (n - i) tag gap rest at
        (omega (arith, at.count, length-gap gap rest (string, tag))) l

-- The views behind the first few.
pub At-skip :
    (json : Bytes) (tokens : List Token) (n i : ℕ) (xs ys : List View)
    → At json tokens n i (xs ++ ys)
    → At json tokens n (i + length xs) ys
At-skip json tokens n i [] ys at = let e : i + 0 ≡ i = omega arith in rw e at
At-skip json tokens n i (x ∷ xs) ys at =
    let (t, there, is, reads, later) = At-head json tokens n i x (xs ++ ys) at in
    let e : i + suc (length xs) ≡ i + 1 + length xs = omega arith in
    rw e (At-skip json tokens n (i + 1) xs ys later)
