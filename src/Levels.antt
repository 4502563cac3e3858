-- ===== src/Levels.antt =====
-- The loops by which book/btc38.c and book/poloniex.c read a book: from a key on, every third token
-- starts a level, a number and the number behind it. The two files differ in the side that comes
-- first and in how the second loop stops.

pub mod First
pub mod Ends
use ken_code_de_bridge.Base.{
  Bool, Bytes, Floats, List, Outcome, [], false, if◌then◌else◌, ltb, negsuc, not, ok, out_of_fuel,
  pos, suc, zero, ℕ, ℤ, ◌&&◌, ◌++◌, ◌+◌, ◌==◌, ◌>>=◌, ◌∷◌,
}
use ken_code_de_bridge.Book.{Book, book_new, zero_double}
use ken_code_de_bridge.Book.Merge.{Setter}
use ken_code_de_bridge.Json.{Token, json_get_double, read_token}

-- `start_pos < stop_pos`, with `stop_pos` an `int`.
abbrev pub is_below : ℕ → ℤ → Bool
is_below start_pos (pos stop_pos) = ltb start_pos stop_pos
is_below start_pos (negsuc _) = false

-- `pos + 3`, where `pos` is what a search returned: its only negative result is -1.
abbrev pub three_behind : ℤ → ℕ
three_behind (pos i) = i + 3
three_behind (negsuc _) = 2

-- A search that returns 0 is taken for one that fails, and gives way to the number of tokens.
abbrev pub or_all : ℕ → ℤ → ℤ
or_all tok_no (pos zero) = pos tok_no
or_all tok_no found = found

module _ {D : Type 0} (floats : Floats D) (json : Bytes) (tokens : List Token) where
  -- The number at a position.
  unfoldable pub read_number : ℕ → Outcome D
  read_number i = do t ← read_token tokens i; json_get_double floats json t (zero_double floats)

  -- The first loop, up to `stop_pos`. A level is added where the next one starts in front of it.
  unfoldable pub first_loop : Setter floats → ℕ → ℕ → ℤ → List (Book D) → Outcome (List (Book D))
  unfolding read_number
  first_loop write zero start_pos stop_pos book = out_of_fuel
  first_loop write (suc fuel) start_pos stop_pos book =
      let round = do
        quantity ← read_number start_pos
        rate ← read_number (start_pos + 1)
        if is_below (start_pos + 3) stop_pos
            then first_loop write fuel (start_pos + 3) stop_pos
                (book ++ write quantity rate (book_new floats) ∷ [])
            else first_loop write fuel 0 stop_pos book
      in if not (start_pos == 0) && is_below start_pos stop_pos then round else ok book
