-- ===== src/Fixtures.antt =====
-- Concrete values for the parameters of the model, by which the tests run it: doubles as decimals
-- with six places, and the tokens of given texts.
use ken_code_de_bridge.Base.{
  Bytes, Floats, List, arith, atoi, drop, length, negsuc, pos, take, ℕ, ◌%◌, ◌*◌, ◌-◌, ◌/◌, ◌<◌,
  ◌^◌,
}
use ken_code_de_bridge.Json.{Token, TokenType, Tokenizer}

-- Six decimal places. (No test needs a negative number.)
abbrev pub micro : Floats ℕ
micro = record {
  literal = λ digits places. digits * 10 ^ (6 - places);
  atof = λ str. elim (atoi str) [ pos n ↦ n * 10 ^ 6 | negsuc _ ↦ 0 ];
  sub = λ a b. a - b;
  mul = λ a b. a * b / 10 ^ 6;
  div = λ a b. a * 10 ^ 6 / b;
  of_u64 = λ n. n * 10 ^ 6;
  to_u64 = λ x. x / 10 ^ 6;
}

-- Doubles whose cast to an integer fits a word, as C's does.
abbrev pub small_micro : Floats ℕ
small_micro = record micro { to_u64 = λ x. x / 10 ^ 6 % 2 ^ 64 }

pub small_u64 : (x : ℕ) → small_micro.to_u64 x < 2 ^ 64
small_u64 x = omega arith

abbrev pub token : TokenType → ℕ → ℕ → Token
token type start end = record { type = type; start = pos start; end = pos end; size = pos 0 }

-- A tokenizer that has one answer.
abbrev pub gives : List Token → Tokenizer
gives tokens json max = (pos (length tokens), tokens)

-- The view of the token at bytes `start` to `end` of a text.
abbrev pub clip : Bytes → TokenType → ℕ → ℕ → TokenType × Bytes
clip json type start end = (type, take (end - start) (drop start json))
