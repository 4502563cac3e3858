-- ===== src/Book.antt =====
-- include/bridge/book.h, book/book.c and book/mock.c: the data that the vendors exchange. A linked
-- list is a `List` (NULL is the empty one), a `char*` an `Option Bytes` (NULL is `none`), and
-- `malloc` succeeds.
pub mod Merge
use ken_code_de_bridge.Base.{Bytes, Floats, List, Option, [], codes, none, set, some, ◌++◌, ◌∷◌}

-- `struct Book`: a bid and an ask.
pub record Book (D : Type 0) : Type 0 where
  pub bid_qty : D
  pub bid_price : D
  pub ask_qty : D
  pub ask_price : D

-- A list that a loop walks: the entries in front of `current`, and those from `current` on. Where
-- none is left, `current` is NULL, and `last` is the end of the list.
pub record Cursor (D : Type 0) : Type 0 where
  pub before : List (Book D)
  pub from_current : List (Book D)

-- `struct Balance`
pub record Balance (D : Type 0) : Type 0 where
  pub currency : Option Bytes
  pub balance : D
  pub pending : D
  pub available : D

-- `struct Market`
pub record Market (D : Type 0) : Type 0 where
  pub market_name : Option Bytes
  pub market_currency : Option Bytes
  pub base_currency : Option Bytes
  pub min_trade_size : D
  pub fee : D

module _ {D : Type 0} (floats : Floats D) where
  -- `0.0`
  abbrev pub zero_double : D
  zero_double = floats.literal 0 0

  abbrev pub book_new : Book D
  book_new = record {
    bid_qty = zero_double;
    bid_price = zero_double;
    ask_qty = zero_double;
    ask_price = zero_double;
  }

  abbrev pub balance_new : Balance D
  balance_new = record {
    currency = none;
    balance = zero_double;
    pending = zero_double;
    available = zero_double;
  }

  abbrev pub market_new : Market D
  market_new = record {
    market_name = none;
    market_currency = none;
    base_currency = none;
    min_trade_size = zero_double;
    fee = zero_double;
  }

  unfoldable pub mock_get_markets : List (Market D)
  mock_get_markets =
      record market_new {
        base_currency = some (codes "BTC");
        market_currency = some (codes "LTC");
        min_trade_size = floats.literal 1 2;
      }
      ∷ []

  unfoldable pub mock_get_books : Market D → List (Book D)
  mock_get_books market =
      record {
        bid_qty = floats.literal 12 0;
        bid_price = floats.literal 1 3;
        ask_qty = floats.literal 12 0;
        ask_price = floats.literal 1 2;
      }
      ∷ []

  -- What the second loop of the three parsers of books does with an entry: the current one is
  -- changed, a new one is made behind the last where there is none, and the cursor goes on.
  unfoldable pub set_current : (Book D → Book D) → Cursor D → Cursor D
  set_current set c = elim c.from_current [
    | [] ↦ record { before = c.before ++ set book_new ∷ []; from_current = [] }
    | b ∷ bs ↦ record { before = c.before ++ set b ∷ []; from_current = bs }
  ]

abbrev pub whole : {D : Type 0} → Cursor D → List (Book D)
whole c = c.before ++ c.from_current

abbrev pub set_ask : {D : Type 0} → D → D → Book D → Book D
set_ask qty price b = record b { ask_qty = qty; ask_price = price }

abbrev pub set_bid : {D : Type 0} → D → D → Book D → Book D
set_bid qty price b = record b { bid_qty = qty; bid_price = price }
