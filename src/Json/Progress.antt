-- ===== src/Json/Progress.antt =====
-- How far a search goes, on any tokens: forward, and not past the last token.
use ken_code_de_bridge.Base.{
  Bool, Bytes, Ensures, Floats, List, Option, Option-cases, Outcome, arith, false, fault, get_elem?,
  if◌then◌else◌, inl, inr, negsuc, ok, out_of_fuel, pos, refl, some, suc, true, zero, ℕ, ℤ, ◌+◌,
  ◌-◌, ◌<◌, ◌>>=◌, ◌≡◌, ◌≤◌, ◌⊎◌,
}
use ken_code_de_bridge.Json.{
  Token, TokenType, double_of, double_value, double_value_at, find_from, int_value, int_value_at,
  json_find_token, json_get_double, json_get_double_value, json_get_int_value,
  json_get_string_value, names_tag, primitive, string, string_value, string_value_at, text_between,
  token_text,
}

-- A position is 0 or lies behind `from` and at most at `n`.
abbrev pub Advances : ℕ → ℕ → ℕ → Type 0
Advances from n p = (p ≡ 0) ⊎ ((from < p) × (p ≤ n))

-- The search ends, and gives such a position.
abbrev pub GoesOn {ℓ} : {A : Type ℓ} → ℕ → ℕ → Outcome (ℕ × A) → Type 0
GoesOn from n = Ensures (λ r. Advances from n r.0)

-- The same, with a string wherever the position is not 0.
abbrev pub StringOrZero : ℕ → ℕ → ℕ × Option Bytes → Type 0
StringOrZero from n r = (r.0 ≡ 0) ⊎ ((from < r.0) × (r.0 ≤ n) × ((str : Bytes) × (r.1 ≡ some str)))

abbrev InRange : ℕ → ℕ → Outcome ℤ → Type 0
InRange from n (ok (pos i)) = (from ≤ i) × (i < n)
InRange from n (ok (negsuc _)) = Unit
InRange from n fault = Unit
InRange from n out_of_fuel = ⊥

names_tag_ends :
    (json : Bytes) (t : Token) (type : TokenType) (tag : Bytes)
    → ((b : Bool) × (names_tag json t type tag ≡ ok b)) ⊎ (names_tag json t type tag ≡ fault)
unfolding names_tag token_text text_between
names_tag_ends json t string tag = ground arith
names_tag_ends json t _ tag = inl (false, refl)

InRange-if :
    (b : Bool) (i n : ℕ) (later : Outcome ℤ)
    → i < n
    → InRange (i + 1) n later
    → InRange i n (if b then ok (pos i) else later)
InRange-if true i n later h r = (omega arith, h)
InRange-if false i n (ok (pos k)) h r = omega arith
InRange-if false i n (ok (negsuc k)) h r = tt
InRange-if false i n fault h r = tt
InRange-if false i n out_of_fuel h r = r

find_from-InRange :
    (json : Bytes) (tokens : List Token) (tag : Bytes) (i rounds n : ℕ)
    → rounds ≡ n - i
    → InRange i n (find_from json tokens tag i rounds)
unfolding find_from
find_from-InRange json tokens tag i zero n e = tt
find_from-InRange json tokens tag i (suc rounds) n e =
    let later = find_from-InRange json tokens tag (i + 1) rounds n (omega arith) in
    elim (Option-cases (get_elem? tokens i)) [
      | inl none_there ↦ rw none_there tt
      | inr (t, there) ↦ rw there (elim (names_tag_ends json t t.type tag) [
        | inl (b, e') ↦ rw e' (InRange-if b i n _ (omega arith) later)
        | inr e' ↦ rw e' tt
      ])
    ]

find-InRange :
    (json : Bytes) (tokens : List Token) (n from : ℕ) (tag : Bytes)
    → InRange from n (json_find_token json tokens n from tag)
unfolding json_find_token
find-InRange json tokens n from tag = find_from-InRange json tokens tag from (n - from) n refl

module _ (json : Bytes) (tokens : List Token) (n from : ℕ) where
  string_value_at-GoesOn :
      (r : Outcome ℤ) (result : Option Bytes)
      → InRange from n r
      → Ensures (StringOrZero from n) (r >>= λ at. string_value_at json tokens at result)
  unfolding string_value_at string_value token_text text_between
  string_value_at-GoesOn (ok (pos i)) result h = ground arith
  string_value_at-GoesOn (ok (negsuc i)) result h = inl refl
  string_value_at-GoesOn fault result h = tt
  string_value_at-GoesOn out_of_fuel result h = h

  int_value_at-GoesOn :
      (r : Outcome ℤ) (result : ℤ)
      → InRange from n r
      → GoesOn from n (r >>= λ at. int_value_at json tokens at result)
  unfolding int_value_at int_value token_text text_between
  int_value_at-GoesOn (ok (pos i)) result h = ground arith
  int_value_at-GoesOn (ok (negsuc i)) result h = inl refl
  int_value_at-GoesOn fault result h = tt
  int_value_at-GoesOn out_of_fuel result h = h

  double_value_at-GoesOn :
      {D : Type 0} (floats : Floats D) (r : Outcome ℤ) (result : D)
      → InRange from n r
      → GoesOn from n (r >>= λ at. double_value_at floats json tokens at result)
  unfolding double_value_at double_value token_text text_between
  double_value_at-GoesOn floats (ok (pos i)) result h = ground arith
  double_value_at-GoesOn floats (ok (negsuc i)) result h = inl refl
  double_value_at-GoesOn floats fault result h = tt
  double_value_at-GoesOn floats out_of_fuel result h = h

  pub json_get_string_value-StringOrZero :
      (tag : Bytes) (result : Option Bytes)
      → Ensures (StringOrZero from n) (json_get_string_value json tokens n from tag result)
  unfolding json_get_string_value
  json_get_string_value-StringOrZero tag result =
      string_value_at-GoesOn _ result (find-InRange json tokens n from tag)

  pub json_get_int_value-GoesOn :
      (tag : Bytes) (result : ℤ) → GoesOn from n (json_get_int_value json tokens n from tag result)
  unfolding json_get_int_value
  json_get_int_value-GoesOn tag result =
      int_value_at-GoesOn _ result (find-InRange json tokens n from tag)

  pub json_get_double_value-GoesOn :
      {D : Type 0} (floats : Floats D) (tag : Bytes) (result : D)
      → GoesOn from n (json_get_double_value floats json tokens n from tag result)
  unfolding json_get_double_value
  json_get_double_value-GoesOn floats tag result =
      double_value_at-GoesOn floats _ result (find-InRange json tokens n from tag)

-- What a search returns, where it is a position.
abbrev pub Found : ℕ → ℕ → ℤ → Type 0
Found from n (pos i) = (from ≤ i) × (i < n)
Found from n (negsuc _) = Unit

pub json_find_token-Found :
    (json : Bytes) (tokens : List Token) (n from : ℕ) (tag : Bytes)
    → Ensures (Found from n) (json_find_token json tokens n from tag)
json_find_token-Found json tokens n from tag = go _ (find-InRange json tokens n from tag)
  where
    go : (r : Outcome ℤ) → InRange from n r → Ensures (Found from n) r
    go (ok (pos i)) h = h
    go (ok (negsuc i)) h = tt
    go fault h = tt
    go out_of_fuel h = h

-- A run that ends, whatever it gives.
abbrev pub Ends {ℓ} : {A : Type ℓ} → Outcome A → Type 0
Ends = Ensures (λ _. Unit)

module _ {D : Type 0} (floats : Floats D) (json : Bytes) where
  double_of-Ends :
      (t : Token) (type : TokenType) (old : D) → Ends (double_of floats json t type old)
  unfolding double_of token_text text_between
  double_of-Ends t string old = ground arith
  double_of-Ends t primitive old = ground arith
  double_of-Ends t _ old = tt

  pub json_get_double-Ends : (t : Token) (old : D) → Ends (json_get_double floats json t old)
  unfolding json_get_double
  json_get_double-Ends t old = double_of-Ends t t.type old
