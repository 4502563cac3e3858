-- ===== src/Json/Tests.antt =====
-- Runs of utils/json.c on a small text, and the theorems there.
use mathlib.Core.Path.{refl, ◌≡◌}
use ken_code_de_bridge.Base.{
  Bytes, List, [], arith, codes, equal_iff, false, none, ok, pos, suc, true, zero, ℕ, ◌++◌, ◌+◌,
  ◌∷◌, ◌≢◌, ◌⊎◌,
}
use ken_code_de_bridge.Fixtures.{clip, micro, token}
use ken_code_de_bridge.Json.{
  Token, array, double_of_text, int_of_text, json_find_token, json_get_double_value,
  json_get_int_value, json_get_string_value, object, primitive, string, token_text, undefined,
}
use ken_code_de_bridge.Json.Find.{AllReadable, FoundFirst, IsKey, NoKey, json_find_token-first}
use ken_code_de_bridge.Json.Values.{
  HasValue, NoLastKey, StringAnswer, json_get_double_value_lem, json_get_int_value_lem,
  json_get_string_value_lem,
}
use ken_code_de_bridge.Json.Views.{View, Views, view_is}

abbrev sample : Bytes
sample = codes "{\"name\":\"ltc\",\"rate\":12,\"on\":true}"

abbrev sample_tokens : List Token
sample_tokens =
    token object 0 34
    ∷ token string 2 6
    ∷ token string 9 12
    ∷ token string 15 19
    ∷ token primitive 21 23
    ∷ token string 25 27
    ∷ token primitive 29 33
    ∷ []

abbrev sample_front : List View
sample_front =
    clip sample object 0 34
    ∷ clip sample string 2 6
    ∷ clip sample string 9 12
    ∷ clip sample string 15 19
    ∷ clip sample primitive 21 23
    ∷ clip sample string 25 27
    ∷ []

abbrev sample_last : View
sample_last = clip sample primitive 29 33

sample_says : Views sample sample_tokens (sample_front ++ sample_last ∷ [])
unfolding token_text
sample_says = (
  refl,
  refl,
  (refl, refl, (refl, refl, (refl, refl, (refl, refl, (refl, refl, (refl, refl, tt)))))),
)

Views-AllReadable :
    (json : Bytes) (tokens : List Token) (vs : List View)
    → Views json tokens vs
    → AllReadable json tokens
Views-AllReadable json [] vs says i t e = cc
Views-AllReadable json (x ∷ tokens) [] says i t e = absurd says
Views-AllReadable json (x ∷ tokens) (v ∷ vs) (is, reads, later) zero t e =
    let same : x ≡ t = cc in (v.1, rw (← same) reads)
Views-AllReadable json (x ∷ tokens) (v ∷ vs) (is, reads, later) (suc i) t e =
    Views-AllReadable json tokens vs later i t e

-- The first token is a key: its view says so.
head-view_is :
    (json : Bytes) (x : Token) (tokens : List Token) (tag : Bytes) (v : View)
    → x.type ≡ v.0
    → token_text json x ≡ ok v.1
    → IsKey json (x ∷ tokens) tag 0
    → view_is tag v ≡ true
head-view_is json x tokens tag (string, str) is reads k =
    let same : str ≡ tag = cc (k.there, k.reads) in (equal_iff str tag).1 same
head-view_is json x tokens tag (undefined, str) is reads k = cc (k.there, k.is_string)
head-view_is json x tokens tag (object, str) is reads k = cc (k.there, k.is_string)
head-view_is json x tokens tag (array, str) is reads k = cc (k.there, k.is_string)
head-view_is json x tokens tag (primitive, str) is reads k = cc (k.there, k.is_string)

IsKey-tail :
    (json : Bytes) (x : Token) (tokens : List Token) (tag : Bytes) (i : ℕ)
    → IsKey json (x ∷ tokens) tag (suc i)
    → IsKey json tokens tag i
IsKey-tail json x tokens tag i k = record {
  token = k.token;
  there = k.there;
  is_string = k.is_string;
  reads = k.reads;
}

Views-NoLastKey :
    (json : Bytes) (tokens : List Token) (tag : Bytes) (vs : List View) (v : View)
    → Views json tokens (vs ++ v ∷ [])
    → view_is tag v ≡ false
    → NoLastKey json tokens tag
Views-NoLastKey json [] tag vs v says l i k = cc (k.there)
Views-NoLastKey json (x ∷ []) tag [] v (is, reads, later) l zero k =
    cc (head-view_is json x [] tag v is reads k)
Views-NoLastKey json (x ∷ []) tag [] v (is, reads, later) l (suc i) k = cc (k.there)
Views-NoLastKey json (x ∷ y ∷ tokens) tag [] v (is, reads, later) l i k = absurd later
Views-NoLastKey json (x ∷ []) tag (w ∷ []) v (is, reads, later) l i k = absurd later
Views-NoLastKey json (x ∷ []) tag (w ∷ w' ∷ vs) v (is, reads, later) l i k = absurd later
Views-NoLastKey json (x ∷ y ∷ tokens) tag (w ∷ vs) v (is, reads, later) l zero k = omega arith
Views-NoLastKey json (x ∷ y ∷ tokens) tag (w ∷ vs) v (is, reads, later) l (suc i) k =
    let h =
      Views-NoLastKey json (y ∷ tokens) tag vs v later l i
        (IsKey-tail json x (y ∷ tokens) tag i k) in
    omega (arith, h)

sample_readable : AllReadable sample sample_tokens
sample_readable =
    Views-AllReadable sample sample_tokens (sample_front ++ sample_last ∷ []) sample_says

json_find_token-first_example :
    FoundFirst sample sample_tokens 7 1
      (codes "rate")
      (json_find_token sample sample_tokens 7 1 (codes "rate"))
json_find_token-first_example =
    json_find_token-first sample sample_tokens 7 1 (codes "rate") sample_readable (omega arith)

json_get_int_value_lem_example :
    (NoKey sample sample_tokens (codes "rate") 1 7
      × (json_get_int_value sample sample_tokens 7 1 (codes "rate") (pos 5) ≡ ok (0, pos 5)))
    ⊎ ((i : ℕ) × (t : Token) × (str : Bytes) × HasValue sample sample_tokens 7 1
          (codes "rate")
          i
          t
          str
        × (((t.type ≡ primitive)
              × (json_get_int_value sample sample_tokens 7 1 (codes "rate") (pos 5)
                  ≡ ok (i + 1, int_of_text str)))
            ⊎ ((t.type ≢ primitive)
                × (json_get_int_value sample sample_tokens 7 1 (codes "rate") (pos 5)
                    ≡ ok (0, pos 5)))))
json_get_int_value_lem_example =
    json_get_int_value_lem sample sample_tokens 7 1 (codes "rate") sample_readable (omega arith)
      (Views-NoLastKey sample sample_tokens (codes "rate") sample_front sample_last sample_says
        refl)
      (pos 5)

json_get_double_value_lem_example :
    (NoKey sample sample_tokens (codes "rate") 1 7
      × (json_get_double_value micro sample sample_tokens 7 1 (codes "rate") 5 ≡ ok (0, 5)))
    ⊎ ((i : ℕ) × (t : Token) × (str : Bytes) × HasValue sample sample_tokens 7 1
          (codes "rate")
          i
          t
          str
        × (((t.type ≡ primitive)
              × (json_get_double_value micro sample sample_tokens 7 1 (codes "rate") 5
                  ≡ ok (i + 1, double_of_text micro str)))
            ⊎ ((t.type ≢ primitive)
                × (json_get_double_value micro sample sample_tokens 7 1 (codes "rate") 5
                    ≡ ok (0, 5)))))
json_get_double_value_lem_example =
    json_get_double_value_lem sample sample_tokens 7 1 (codes "rate") sample_readable (omega arith)
      (Views-NoLastKey sample sample_tokens (codes "rate") sample_front sample_last sample_says
        refl)
      micro 5

json_get_string_value_lem_example :
    (NoKey sample sample_tokens (codes "name") 1 7
      × (json_get_string_value sample sample_tokens 7 1 (codes "name") none ≡ ok (0, none)))
    ⊎ ((i : ℕ) × (t : Token) × (str : Bytes) × HasValue sample sample_tokens 7 1
          (codes "name")
          i
          t
          str
        × StringAnswer t.type str
            (i + 1)
            none
            (json_get_string_value sample sample_tokens 7 1 (codes "name") none))
json_get_string_value_lem_example =
    json_get_string_value_lem sample sample_tokens 7 1 (codes "name") sample_readable (omega arith)
      (Views-NoLastKey sample sample_tokens (codes "name") sample_front sample_last sample_says
        refl)
      none

-- "rate" is token 3, and its value token 4.
rate_found : json_get_int_value sample sample_tokens 7 1 (codes "rate") (pos 5) ≡ ok (4, pos 12)
unfolding json_get_int_value
rate_found = refl
