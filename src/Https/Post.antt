-- ===== src/Https/Post.antt =====
-- The two ways to the fields of a POST: parameter by parameter, and all at once.
use ken_code_de_bridge.Base.{
  Bytes, List, Option, Outcome, [], ap, append-nil, append_assoc, arith, length, length-append, ltb,
  none, ok, some, true, ℕ, ◌++◌, ◌+◌, ◌<◌, ◌>>=◌, ◌∙◌, ◌∷◌, ◌≡◌,
}
use ken_code_de_bridge.Https.{
  Curl, HttpConnection, Parameter, parameter_text, postfield_length, postfield_loop, strcat,
  utils_https_add_post_parameter, utils_https_build_postfield, utils_https_new,
}

abbrev text_of : Parameter → Bytes
text_of p = parameter_text p.name p.value

abbrev later_text : List Parameter → Bytes
later_text [] = []
later_text (p ∷ parameters) = b'&' ∷ text_of p ++ later_text parameters

-- `name=value`, with `&` between two.
abbrev pub fields_text : Parameter → List Parameter → Bytes
fields_text p parameters = text_of p ++ later_text parameters

abbrev pub add_all : HttpConnection → List Parameter → HttpConnection
add_all connection [] = connection
add_all connection (p ∷ parameters) =
    add_all (utils_https_add_post_parameter connection p.name p.value) parameters

add_all-later :
    (parameters : List Parameter) (old : Bytes) (headers : List Bytes) (encoded : Option Bytes)
    → (add_all
        (record {
          headers = headers;
          post_parameters = some old;
          encoded_post_parameters = encoded;
        })
        parameters).post_parameters
      ≡ some (old ++ later_text parameters)
unfolding utils_https_add_post_parameter
add_all-later [] old headers encoded = rw append-nil
add_all-later (p ∷ parameters) old headers encoded =
    add_all-later parameters (old ++ b'&' ∷ text_of p) headers encoded
    ∙ ap some (append_assoc old (b'&' ∷ text_of p) (later_text parameters))

strcat-fits :
    (size : ℕ) (text more : Bytes)
    → length text + length more < size
    → strcat size text more ≡ ok (text ++ more)
strcat-fits size text more h = ground arith

length-text_of : (p : Parameter) → length (text_of p) ≡ length p.name + length p.value + 1
length-text_of p = omega (arith, length-append {0} p.name (b'=' ∷ p.value))

append_three :
    (text name value : Bytes)
    → ((text ++ name) ++ b'=' ∷ []) ++ value ≡ text ++ parameter_text name value
append_three text name value =
    append_assoc (text ++ name) (b'=' ∷ []) value ∙ append_assoc text name (b'=' ∷ value)

-- One round, behind the `&`.
strcat_parameter :
    (size : ℕ) (begun : Bytes) (p : Parameter) (next : Bytes → Outcome Bytes)
    → length begun + length p.name + length p.value + 1 < size
    → (strcat size begun p.name >>= λ named.
        strcat size named (b'=' ∷ []) >>= λ equals. strcat size equals p.value >>= next)
      ≡ next (begun ++ text_of p)
strcat_parameter size begun p next h =
    let one = length-append {0} begun p.name in
    let two = length-append {0} (begun ++ p.name) (b'=' ∷ []) in
    rw (
      strcat-fits size begun p.name (omega arith),
      strcat-fits size (begun ++ p.name) (b'=' ∷ []) (omega (arith, one)),
      strcat-fits size ((begun ++ p.name) ++ b'=' ∷ []) p.value (omega (arith, one, two)),
      append_three begun p.name p.value,
    )

postfield_loop-later :
    (size : ℕ) (parameters : List Parameter) (old : Bytes)
    → 0 < length old
    → length old + postfield_length parameters < size
    → postfield_loop size parameters old ≡ ok (old ++ later_text parameters)
unfolding postfield_loop postfield_length
postfield_loop-later size [] old begun h = rw append-nil
postfield_loop-later size (p ∷ parameters) old begun h =
    let e = length-append {0} old (b'&' ∷ []) in
    let e' = length-append {0} (old ++ b'&' ∷ []) (text_of p) in
    let test : ltb 0 (length old) ≡ true = ground arith in
    rw (test, strcat-fits size old (b'&' ∷ []) (omega arith))
      (strcat_parameter size (old ++ b'&' ∷ []) p (postfield_loop size parameters)
          (omega (arith, e))
        ∙ postfield_loop-later size parameters ((old ++ b'&' ∷ []) ++ text_of p)
            (omega (arith, e, e')) (omega (arith, e, e', length-text_of p))
        ∙ ap ok (
            append_assoc (old ++ b'&' ∷ []) (text_of p) (later_text parameters)
            ∙ append_assoc old (b'&' ∷ []) (text_of p ++ later_text parameters)))

module _ (curl : Curl) where
  -- Adding parameters to a new connection gives the text that `utils_https_build_postfield` escapes,
  -- and its array has room for it.
  pub utils_https_build_postfield-add :
      (p : Parameter) (parameters : List Parameter)
      → ((add_all utils_https_new (p ∷ parameters)).post_parameters
          ≡ some (fields_text p parameters))
        × (utils_https_build_postfield curl (p ∷ parameters)
            ≡ ok (curl.escape (fields_text p parameters)))
  unfolding utils_https_add_post_parameter utils_https_build_postfield postfield_loop
      postfield_length
  utils_https_build_postfield-add p parameters =
      let size = length p.name + length p.value + 2 + postfield_length parameters in
      (
        add_all-later parameters (text_of p) [] none,
        rw (
            strcat_parameter size [] p (postfield_loop size parameters) (omega arith)
            ∙ postfield_loop-later size parameters (text_of p) (omega (arith, length-text_of p))
                (omega (arith, length-text_of p))),
      )
