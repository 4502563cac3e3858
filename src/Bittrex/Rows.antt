-- ===== src/Bittrex/Rows.antt =====
-- The markets of an answer of `public/getmarkets`, as the tokens lay them out.
use ken_code_de_bridge.Base.{
  Bytes, Floats, List, [], arith, codes, if◌then◌else◌, length, length-append, some, true, ◌++◌,
  ◌∷◌, ◌≡◌, ◌≤◌,
}
use ken_code_de_bridge.Book.{Market}
use ken_code_de_bridge.Json.{double_of_text, int_of_text, primitive, string}
use ken_code_de_bridge.Json.Views.{View, lacks}
use ken_code_de_bridge.Bittrex.{is_zero}

-- One market of the answer: its values in the order of their keys, and in front of each key the
-- views that are not looked at.
pub record Row : Type 0 where
  pub gap_currency : List View
  pub currency : Bytes
  pub gap_base : List View
  pub base : Bytes
  pub gap_size : List View
  pub size : Bytes
  pub gap_name : List View
  pub name : Bytes
  pub gap_active : List View
  pub active : Bytes

-- The views of a market, with those behind it.
abbrev pub row_views : Row → List View → List View
row_views r rest =
    r.gap_currency
    ++ (string, codes "MarketCurrency")
      ∷ (string, r.currency)
      ∷ (r.gap_base
          ++ (string, codes "BaseCurrency")
            ∷ (string, r.base)
            ∷ (r.gap_size
                ++ (string, codes "MinTradeSize")
                  ∷ (primitive, r.size)
                  ∷ (r.gap_name
                      ++ (string, codes "MarketName")
                        ∷ (string, r.name)
                        ∷ (r.gap_active
                            ++ (string, codes "IsActive") ∷ (primitive, r.active) ∷ rest))))

abbrev pub rows_views : List Row → List View → List View
rows_views [] rest = rest
rows_views (r ∷ rows) rest = row_views r (rows_views rows rest)

-- No key of the market stands in front of its place: the search for it starts at the value before.
pub record IsOrderly (r : Row) : Type 0 where
  pub currency_first : lacks (codes "MarketCurrency") r.gap_currency ≡ true
  pub base_first : lacks (codes "BaseCurrency") ((string, r.currency) ∷ r.gap_base) ≡ true
  pub size_first : lacks (codes "MinTradeSize") ((string, r.base) ∷ r.gap_size) ≡ true
  pub name_first : lacks (codes "MarketName") ((primitive, r.size) ∷ r.gap_name) ≡ true
  pub active_first : lacks (codes "IsActive") ((string, r.name) ∷ r.gap_active) ≡ true

abbrev pub AllOrderly : List Row → Type 0
AllOrderly [] = Unit
AllOrderly (r ∷ rows) = IsOrderly r × AllOrderly rows

pub length-rows_views :
    (rows : List Row) (tail : List View) → length rows ≤ length (rows_views rows tail)
length-rows_views [] tail = omega arith
length-rows_views (r ∷ rows) tail = omega (arith, length-append {0}, length-rows_views rows tail)

-- The views of a whole answer.
abbrev pub listing_views : List View → Bytes → List Row → List View → List View
listing_views gap success rows tail =
    gap ++ (string, codes "success") ∷ (primitive, success) ∷ rows_views rows tail

module _ {D : Type 0} (floats : Floats D) where
  -- The market of a row, with the fixed fee of 0.7.
  abbrev pub market_of : Row → Market D
  market_of r = record {
    market_name = some r.name;
    market_currency = some r.currency;
    base_currency = some r.base;
    min_trade_size = double_of_text floats r.size;
    fee = floats.literal 7 1;
  }

  -- The markets that the answer says are active, in its order.
  abbrev pub listed : List Row → List (Market D)
  listed [] = []
  listed (r ∷ rows) =
      let rest = listed rows in if is_zero (int_of_text r.active) then rest else market_of r ∷ rest
