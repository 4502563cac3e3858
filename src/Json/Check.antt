-- ===== src/Json/Check.antt =====
-- A test for what tokens say, for texts that are given.
use ken_code_de_bridge.Base.{
  Bool, Bytes, List, Outcome, [], ap, arith, equal, equal_iff, false, fault, length, ok,
  out_of_fuel, refl, true, ◌&&◌, ◌∷◌, ◌≡◌,
}
use ken_code_de_bridge.Json.{
  Token, TokenType, array, object, primitive, string, token_text, undefined,
}
use ken_code_de_bridge.Json.Views.{At, View, Views}

abbrev same_type : TokenType → TokenType → Bool
same_type undefined undefined = true
same_type object object = true
same_type array array = true
same_type string string = true
same_type primitive primitive = true
same_type _ _ = false

same_type-eq : (a b : TokenType) → same_type a b ≡ true → a ≡ b
same_type-eq undefined undefined h = refl
same_type-eq object object h = refl
same_type-eq array array h = refl
same_type-eq string string h = refl
same_type-eq primitive primitive h = refl
same_type-eq _ _ h = cc

abbrev gives_text : Outcome Bytes → Bytes → Bool
gives_text (ok str) expected = equal str expected
gives_text _ expected = false

gives_text-eq : (r : Outcome Bytes) (str : Bytes) → gives_text r str ≡ true → r ≡ ok str
gives_text-eq (ok s) str h = ap ok ((equal_iff s str).0 h)
gives_text-eq fault str h = cc
gives_text-eq out_of_fuel str h = cc

abbrev pub says_all : Bytes → List Token → List View → Bool
says_all json [] [] = true
says_all json (t ∷ ts) (v ∷ vs) =
    same_type t.type v.0 && (gives_text (token_text json t) v.1 && says_all json ts vs)
says_all json _ _ = false

both : (b c : Bool) → (b && c) ≡ true → (b ≡ true) × (c ≡ true)
both true c h = (refl, h)
both false c h = cc

says_all-Views :
    (json : Bytes) (ts : List Token) (vs : List View)
    → says_all json ts vs ≡ true
    → Views json ts vs
says_all-Views json [] [] h = tt
says_all-Views json [] (v ∷ vs) h = cc
says_all-Views json (t ∷ ts) [] h = cc
says_all-Views json (t ∷ ts) (v ∷ vs) h =
    let (type, rest) = both (same_type t.type v.0) _ h in
    let (text, later) = both (gives_text (token_text json t) v.1) _ rest in
    (same_type-eq t.type v.0 type, gives_text-eq _ v.1 text, says_all-Views json ts vs later)

pub At-checked :
    (json : Bytes) (tokens : List Token) (vs : List View)
    → says_all json tokens vs ≡ true
    → At json tokens (length vs) 0 vs
At-checked json tokens vs h = record { says = says_all-Views json tokens vs h; count = omega arith }
