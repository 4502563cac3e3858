-- ===== src/Json/Values.antt =====
-- What the `json_get_…_value` functions return, where there is memory for what they copy.
use ken_code_de_bridge.Base.{
  Bytes, Floats, List, Option, Outcome, get_elem?, inl, inr, length, none, ok, refl, some, ℕ, ℤ,
  ◌+◌, ◌<◌, ◌≡◌, ◌≢◌, ◌≤◌, ◌⊎◌,
}
use ken_code_de_bridge.Json.{
  Token, TokenType, double_of_text, double_value, int_of_text, int_value, json_get_double_value,
  json_get_int_value, json_get_string_value, primitive, string, string_value, token_text,
}
use ken_code_de_bridge.Json.Find.{AllReadable, First, IsKey, NoKey, json_find_token_cases}

-- Behind the first key stands token `i + 1`, whose text is `str`.
pub record HasValue (json : Bytes) (tokens : List Token) (n from : ℕ) (tag : Bytes) (i : ℕ)
    (t : Token) (str : Bytes) : Type 0 where
  pub first : First json tokens n from tag i
  pub behind : get_elem? tokens (i + 1) ≡ some t
  pub reads : token_text json t ≡ ok str

-- Each key has a token behind it.
abbrev pub NoLastKey : Bytes → List Token → Bytes → Type 0
NoLastKey json tokens tag = (i : ℕ) → IsKey json tokens tag i → i + 1 < length tokens

int_value_cases :
    (json : Bytes) (t : Token) (type : TokenType) (str : Bytes) (at : ℕ) (result : ℤ)
    → token_text json t ≡ ok str
    → ((type ≡ primitive) × (int_value json t type at result ≡ ok (at, int_of_text str)))
      ⊎ ((type ≢ primitive) × (int_value json t type at result ≡ ok (0, result)))
unfolding int_value
int_value_cases json t primitive str at result reads = inl (refl, rw reads)
int_value_cases json t _ str at result reads = inr ((λ e. cc e), refl)

double_value_cases :
    {D : Type 0} (floats : Floats D) (json : Bytes) (t : Token) (type : TokenType) (str : Bytes)
    (at : ℕ) (result : D)
    → token_text json t ≡ ok str
    → ((type ≡ primitive)
        × (double_value floats json t type at result ≡ ok (at, double_of_text floats str)))
      ⊎ ((type ≢ primitive) × (double_value floats json t type at result ≡ ok (0, result)))
unfolding double_value
double_value_cases floats json t primitive str at result reads = inl (refl, rw reads)
double_value_cases floats json t _ str at result reads = inr ((λ e. cc e), refl)

-- A string is copied, a primitive is taken for a null, and any other value leaves `result`.
abbrev pub StringAnswer : TokenType → Bytes → ℕ → Option Bytes → Outcome (ℕ × Option Bytes) → Type 0
StringAnswer string str at result out = out ≡ ok (at, some str)
StringAnswer primitive str at result out = out ≡ ok (0, none)
StringAnswer _ str at result out = out ≡ ok (0, result)

string_value_cases :
    (json : Bytes) (t : Token) (type : TokenType) (str : Bytes) (at : ℕ) (result : Option Bytes)
    → token_text json t ≡ ok str
    → StringAnswer type str at result (string_value json t type at result)
unfolding string_value
string_value_cases json t string str at result reads = rw reads
string_value_cases json t _ str at result reads = refl

module _ (json : Bytes) (tokens : List Token) (n from : ℕ) (tag : Bytes)
    (readable : AllReadable json tokens) (fits : n ≤ length tokens)
    (next : NoLastKey json tokens tag) where
  -- `json_get_int_value` returns the position behind the first key and the number that the text
  -- of the primitive there stands for. Where there is no key, or no primitive behind it, it
  -- returns 0 and leaves `*result` alone. It never faults on readable tokens where each key has
  -- a token behind it.
  pub json_get_int_value_lem :
      (result : ℤ)
      → (NoKey json tokens tag from n
          × (json_get_int_value json tokens n from tag result ≡ ok (0, result)))
        ⊎ ((i : ℕ) × (t : Token) × (str : Bytes) × HasValue json tokens n from tag i t str
            × (((t.type ≡ primitive)
                  × (json_get_int_value json tokens n from tag result
                      ≡ ok (i + 1, int_of_text str)))
                ⊎ ((t.type ≢ primitive)
                    × (json_get_int_value json tokens n from tag result ≡ ok (0, result)))))
  unfolding json_get_int_value
  json_get_int_value_lem result =
      elim (json_find_token_cases json tokens n from tag readable fits next) [
        | inl (e, none_there) ↦ inl (none_there, rw e)
        | inr (i, t, str, e, f, there, reads) ↦ inr (
          i,
          t,
          str,
          record { first = f; behind = there; reads = reads },
          rw (e, there) (int_value_cases json t t.type str (i + 1) result reads),
        )
      ]

  -- `json_get_double_value` returns the position behind the first key and the double that the text
  -- of the primitive there stands for. Where there is no key, or no primitive behind it, it
  -- returns 0 and leaves `*result` alone. It never faults on readable tokens where each key has
  -- a token behind it.
  pub json_get_double_value_lem :
      {D : Type 0} (floats : Floats D) (result : D)
      → (NoKey json tokens tag from n
          × (json_get_double_value floats json tokens n from tag result ≡ ok (0, result)))
        ⊎ ((i : ℕ) × (t : Token) × (str : Bytes) × HasValue json tokens n from tag i t str
            × (((t.type ≡ primitive)
                  × (json_get_double_value floats json tokens n from tag result
                      ≡ ok (i + 1, double_of_text floats str)))
                ⊎ ((t.type ≢ primitive)
                    × (json_get_double_value floats json tokens n from tag result
                        ≡ ok (0, result)))))
  unfolding json_get_double_value
  json_get_double_value_lem floats result =
      elim (json_find_token_cases json tokens n from tag readable fits next) [
        | inl (e, none_there) ↦ inl (none_there, rw e)
        | inr (i, t, str, e, f, there, reads) ↦ inr (
          i,
          t,
          str,
          record { first = f; behind = there; reads = reads },
          rw (e, there) (double_value_cases floats json t t.type str (i + 1) result reads),
        )
      ]

  -- On readable tokens, where no more are counted than the array has, each key has a token behind it
  -- and there is memory for the copy, `json_get_string_value` returns the position behind the first
  -- key and a copy of the string there. A primitive there sets `*result` to NULL and returns 0. Where
  -- there is no key, or an object or an array behind it, it returns 0 and leaves `*result` alone. It
  -- does not fault.
  pub json_get_string_value_lem :
      (result : Option Bytes)
      → (NoKey json tokens tag from n
          × (json_get_string_value json tokens n from tag result ≡ ok (0, result)))
        ⊎ ((i : ℕ) × (t : Token) × (str : Bytes) × HasValue json tokens n from tag i t str
            × StringAnswer t.type str
                (i + 1)
                result
                (json_get_string_value json tokens n from tag result))
  unfolding json_get_string_value
  json_get_string_value_lem result =
      elim (json_find_token_cases json tokens n from tag readable fits next) [
        | inl (e, none_there) ↦ inl (none_there, rw e)
        | inr (i, t, str, e, f, there, reads) ↦ inr (
          i,
          t,
          str,
          record { first = f; behind = there; reads = reads },
          rw (e, there) (string_value_cases json t t.type str (i + 1) result reads),
        )
      ]
