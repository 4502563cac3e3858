-- ===== src/Json/Seek.antt =====
-- The `json_get_…_value` functions over views: from `i` they go over the gap in front of the key, and
-- the next search starts at the value.
use native.Mathlib.Numerals.{add-one}
use ken_code_de_bridge.Base.{
  Bytes, Floats, List, Option, length, ok, some, suc, true, ℕ, ℤ, ◌++◌, ◌+◌, ◌∷◌, ◌≡◌,
}
use ken_code_de_bridge.Json.{
  Token, double_of_text, double_value, int_of_text, int_value, json_get_double_value,
  json_get_int_value, json_get_string_value, primitive, string, string_value,
}
use ken_code_de_bridge.Json.Views.{
  At, At-head, View, json_find_token-gap, json_find_token-none, lacks,
}

module _ (json : Bytes) (tokens : List Token) (n i : ℕ) (tag : Bytes) where
  pub json_get_string_value-none :
      (result : Option Bytes) (vs : List View)
      → At json tokens n i vs
      → lacks tag vs ≡ true
      → json_get_string_value json tokens n i tag result ≡ ok (0, result)
  unfolding json_get_string_value
  json_get_string_value-none result vs at l = rw (json_find_token-none json tokens n i tag vs at l)

  pub json_get_string_value-gap :
      (result : Option Bytes) (gap rest : List View) (str : Bytes)
      → At json tokens n i (gap ++ (string, tag) ∷ (string, str) ∷ rest)
      → lacks tag gap ≡ true
      → (k : ℕ) × (json_get_string_value json tokens n i tag result ≡ ok (suc k, some str))
        × At json tokens n (suc k) ((string, str) ∷ rest)
  unfolding json_get_string_value string_value
  json_get_string_value-gap result gap rest str at l =
      let k = i + length gap in
      let (found, after) = json_find_token-gap json tokens n i tag gap _ at l in
      let (t, there, is, reads, later) = At-head json tokens n (k + 1) _ _ after in
      (k, rw (found, there, is, reads, add-one), rw add-one at after)

  pub json_get_int_value-none :
      (result : ℤ) (vs : List View)
      → At json tokens n i vs
      → lacks tag vs ≡ true
      → json_get_int_value json tokens n i tag result ≡ ok (0, result)
  unfolding json_get_int_value
  json_get_int_value-none result vs at l = rw (json_find_token-none json tokens n i tag vs at l)

  pub json_get_int_value-gap :
      (result : ℤ) (gap rest : List View) (str : Bytes)
      → At json tokens n i (gap ++ (string, tag) ∷ (primitive, str) ∷ rest)
      → lacks tag gap ≡ true
      → (k : ℕ) × (json_get_int_value json tokens n i tag result ≡ ok (suc k, int_of_text str))
        × At json tokens n (suc k) ((primitive, str) ∷ rest)
  unfolding json_get_int_value int_value
  json_get_int_value-gap result gap rest str at l =
      let k = i + length gap in
      let (found, after) = json_find_token-gap json tokens n i tag gap _ at l in
      let (t, there, is, reads, later) = At-head json tokens n (k + 1) _ _ after in
      (k, rw (found, there, is, reads, add-one), rw add-one at after)

  pub json_get_double_value-none :
      {D : Type 0} (floats : Floats D) (result : D) (vs : List View)
      → At json tokens n i vs
      → lacks tag vs ≡ true
      → json_get_double_value floats json tokens n i tag result ≡ ok (0, result)
  unfolding json_get_double_value
  json_get_double_value-none floats result vs at l =
      rw (json_find_token-none json tokens n i tag vs at l)

  pub json_get_double_value-gap :
      {D : Type 0} (floats : Floats D) (result : D) (gap rest : List View) (str : Bytes)
      → At json tokens n i (gap ++ (string, tag) ∷ (primitive, str) ∷ rest)
      → lacks tag gap ≡ true
      → (k : ℕ) × (json_get_double_value floats json tokens n i tag result
          ≡ ok (suc k, double_of_text floats str))
        × At json tokens n (suc k) ((primitive, str) ∷ rest)
  unfolding json_get_double_value double_value
  json_get_double_value-gap floats result gap rest str at l =
      let k = i + length gap in
      let (found, after) = json_find_token-gap json tokens n i tag gap _ at l in
      let (t, there, is, reads, later) = At-head json tokens n (k + 1) _ _ after in
      (k, rw (found, there, is, reads, add-one), rw add-one at after)
