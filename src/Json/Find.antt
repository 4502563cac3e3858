-- ===== src/Json/Find.antt =====
-- What `json_find_token` returns: the first key with the tag.
use native.Mathlib.Decide.{ℕ_discrete}
use ken_code_de_bridge.Base.{
  Bool-cases, Bytes, List, Outcome, [], arith, equal, equal_iff, false, fault, get_elem?, inl, inr,
  length, negsuc, ok, out_of_fuel, pos, refl, some, suc, true, zero, ℕ, ℤ, ◌+◌, ◌-◌, ◌<◌, ◌∷◌, ◌≡◌,
  ◌≤◌, ◌⊎◌,
}
use ken_code_de_bridge.Json.{
  Token, TokenType, array, find_from, json_find_token, names_tag, object, primitive, string,
  token_text, undefined,
}

-- The text of each token can be copied out.
abbrev pub AllReadable : Bytes → List Token → Type 0
AllReadable json tokens =
    (i : ℕ) (t : Token) → get_elem? tokens i ≡ some t → (str : Bytes) × (token_text json t ≡ ok str)

-- Token `i` is a string that reads `tag`.
pub record IsKey (json : Bytes) (tokens : List Token) (tag : Bytes) (i : ℕ) : Type 0 where
  pub token : Token
  pub there : get_elem? tokens i ≡ some token
  pub is_string : token.type ≡ string
  pub reads : token_text json token ≡ ok tag

abbrev pub NoKey : Bytes → List Token → Bytes → ℕ → ℕ → Type 0
NoKey json tokens tag from to = (j : ℕ) → from ≤ j → j < to → ¬ IsKey json tokens tag j

-- Token `i` is the first key with the tag at or behind `from` and in front of `n`.
pub record First (json : Bytes) (tokens : List Token) (n from : ℕ) (tag : Bytes) (i : ℕ)
    : Type 0 where
  pub not_before : from ≤ i
  pub inside : i < n
  pub key : IsKey json tokens tag i
  pub none_before : NoKey json tokens tag from i

-- The result is the first key at or behind `from` and in front of `n`, or -1 if there is none.
abbrev pub FoundFirst : Bytes → List Token → ℕ → ℕ → Bytes → Outcome ℤ → Type 0
FoundFirst json tokens n from tag (ok (pos i)) = First json tokens n from tag i
FoundFirst json tokens n from tag (ok (negsuc m)) = (m ≡ 0) × NoKey json tokens tag from n
FoundFirst json tokens n from tag fault = ⊥
FoundFirst json tokens n from tag out_of_fuel = ⊥

pub get_elem?_in :
    (tokens : List Token) (i : ℕ) → i < length tokens → (t : Token) × (get_elem? tokens i ≡ some t)
get_elem?_in [] i h = absurd (omega arith)
get_elem?_in (t ∷ tokens) zero h = (t, refl)
get_elem?_in (t ∷ tokens) (suc i) h = get_elem?_in tokens i (omega arith)

-- The test at token `i` says whether it is a key.
tested_at :
    (json : Bytes) (tokens : List Token) (tag : Bytes) (i : ℕ) (t : Token) (str : Bytes)
    (type : TokenType)
    → get_elem? tokens i ≡ some t
    → t.type ≡ type
    → token_text json t ≡ ok str
    → ((names_tag json t type tag ≡ ok true) × IsKey json tokens tag i)
      ⊎ ((names_tag json t type tag ≡ ok false) × ¬ IsKey json tokens tag i)
unfolding names_tag
tested_at json tokens tag i t str string there is reads = elim (Bool-cases (equal str tag)) [
  | inl e ↦ inl (
    rw (reads, e),
    record {
      token = t;
      there = there;
      is_string = is;
      reads = rw (← (equal_iff str tag).0 e) reads;
    },
  )
  | inr e ↦ inr (
    rw (reads, e),
    λ k. let same : str ≡ tag = cc (k.there, k.reads) in cc ((equal_iff str tag).1 same),
  )
]
tested_at json tokens tag i t str undefined there is reads =
    inr (refl, λ k. cc (k.there, k.is_string))
tested_at json tokens tag i t str object there is reads = inr (refl, λ k. cc (k.there, k.is_string))
tested_at json tokens tag i t str array there is reads = inr (refl, λ k. cc (k.there, k.is_string))
tested_at json tokens tag i t str primitive there is reads =
    inr (refl, λ k. cc (k.there, k.is_string))

-- One round of the loop, both ways.
find_from-round :
    (json : Bytes) (tokens : List Token) (tag : Bytes) (i rounds : ℕ)
    → AllReadable json tokens
    → i < length tokens
    → ((find_from json tokens tag i (suc rounds) ≡ ok (pos i)) × IsKey json tokens tag i)
      ⊎ ((find_from json tokens tag i (suc rounds) ≡ find_from json tokens tag (i + 1) rounds)
          × ¬ IsKey json tokens tag i)
unfolding find_from
find_from-round json tokens tag i rounds readable h =
    let (t, there) = get_elem?_in tokens i h in
    let (str, reads) = readable i t there in
    elim (tested_at json tokens tag i t str t.type there refl reads) [
      | inl (e, k) ↦ inl (rw (there, e), k)
      | inr (e, k) ↦ inr (rw (there, e), k)
    ]

NoKey-cons :
    (json : Bytes) (tokens : List Token) (tag : Bytes) (i n : ℕ)
    → ¬ IsKey json tokens tag i
    → NoKey json tokens tag (i + 1) n
    → NoKey json tokens tag i n
NoKey-cons json tokens tag i n ne later j lo hi key = elim (ℕ_discrete i j) [
  | yes e ↦ ne (rw e key)
  | no d ↦ later j (omega arith) hi key
]

-- A first key behind a token that is none is a first key from there on.
FoundFirst-skip :
    (json : Bytes) (tokens : List Token) (n i : ℕ) (tag : Bytes) (r : Outcome ℤ)
    → ¬ IsKey json tokens tag i
    → FoundFirst json tokens n (i + 1) tag r
    → FoundFirst json tokens n i tag r
FoundFirst-skip json tokens n i tag (ok (pos k)) ne f = record {
  not_before = omega arith;
  inside = f.inside;
  key = f.key;
  none_before = NoKey-cons json tokens tag i k ne f.none_before;
}
FoundFirst-skip json tokens n i tag (ok (negsuc m)) ne (z, none_before) =
    (z, NoKey-cons json tokens tag i n ne none_before)
FoundFirst-skip json tokens n i tag fault ne h = h
FoundFirst-skip json tokens n i tag out_of_fuel ne h = h

find_from-first :
    (json : Bytes) (tokens : List Token) (tag : Bytes) (i rounds n : ℕ)
    → AllReadable json tokens
    → rounds ≡ n - i
    → n ≤ length tokens
    → FoundFirst json tokens n i tag (find_from json tokens tag i rounds)
find_from-first json tokens tag i zero n readable e h =
    unfold find_from in (refl, λ j lo hi. absurd (omega arith))
find_from-first json tokens tag i (suc rounds) n readable e h =
    elim (find_from-round json tokens tag i rounds readable (omega arith)) [
      | inl (found, key) ↦ rw found (record {
        not_before = omega arith;
        inside = omega arith;
        key = key;
        none_before = λ j lo hi. absurd (omega arith);
      })
      | inr (more, ne) ↦ rw more (
          FoundFirst-skip json tokens n i tag _ ne
            (find_from-first json tokens tag (i + 1) rounds n readable (omega arith) h))
    ]

-- On tokens whose texts can be read, `json_find_token` returns the position of the first string
-- token from `start_from` on that reads `tag`, and -1 exactly where there is none. It never faults.
pub json_find_token-first :
    (json : Bytes) (tokens : List Token) (tok_length start_from : ℕ) (tag : Bytes)
    → AllReadable json tokens
    → tok_length ≤ length tokens
    → FoundFirst json tokens tok_length start_from tag
        (json_find_token json tokens tok_length start_from tag)
unfolding json_find_token
json_find_token-first json tokens n start tag readable h =
    find_from-first json tokens tag start (n - start) n readable refl h

-- The same as a choice that hands over the token behind the key, where each key has one.
pub json_find_token_cases :
    (json : Bytes) (tokens : List Token) (tok_length start_from : ℕ) (tag : Bytes)
    → AllReadable json tokens
    → tok_length ≤ length tokens
    → ((i : ℕ) → IsKey json tokens tag i → i + 1 < length tokens)
    → ((json_find_token json tokens tok_length start_from tag ≡ ok (negsuc 0))
        × NoKey json tokens tag start_from tok_length)
      ⊎ ((i : ℕ) × (t : Token) × (str : Bytes) × (json_find_token json tokens tok_length start_from
              tag
            ≡ ok (pos i))
          × First json tokens tok_length start_from tag i
          × (get_elem? tokens (i + 1) ≡ some t)
          × (token_text json t ≡ ok str))
json_find_token_cases json tokens n start tag readable h next =
    go (json_find_token json tokens n start tag) refl
      (json_find_token-first json tokens n start tag readable h)
  where
    go :
        (r : Outcome ℤ)
        → json_find_token json tokens n start tag ≡ r
        → FoundFirst json tokens n start tag r
        → ((json_find_token json tokens n start tag ≡ ok (negsuc 0))
            × NoKey json tokens tag start n)
          ⊎ ((i : ℕ) × (t : Token) × (str : Bytes) × (json_find_token json tokens n start tag
                ≡ ok (pos i))
              × First json tokens n start tag i
              × (get_elem? tokens (i + 1) ≡ some t)
              × (token_text json t ≡ ok str))
    go (ok (pos i)) e f =
        let (t, there) = get_elem?_in tokens (i + 1) (next i f.key) in
        let (str, reads) = readable (i + 1) t there in inr (i, t, str, e, f, there, reads)
    go (ok (negsuc m)) e (z, none_there) = inl (rw (← z) e, none_there)
    go fault e f = absurd f
    go out_of_fuel e f = absurd f
