-- ===== src/Bittrex/Account/Balances.antt =====
-- `bittrex_parse_balance` over an answer that lays out its four keys in order.
use ken_code_de_bridge.Base.{
  Bytes, Floats, List, Option, Outcome, codes, get_elem?, length, none, ok, pos, some, true, ℕ,
  ◌++◌, ◌+◌, ◌∙◌, ◌∷◌, ◌≡◌,
}
use ken_code_de_bridge.Book.{Balance, zero_double}
use ken_code_de_bridge.Json.{Token, Tokenizer, json_find_token, json_get_string, string}
use ken_code_de_bridge.Json.Numbers.{
  json_get_double-view, json_get_string-view, number_or, string_or,
}
use ken_code_de_bridge.Json.Views.{At, At-head, View, json_find_token-gap, lacks}
use ken_code_de_bridge.Bittrex.Account.{balance_of_tokens, bittrex_parse_balance, double_after}

-- A key with what stands in front of it and its value.
pub record Field : Type 0 where
  pub gap : List View
  pub value : View

abbrev pub field_views : Bytes → Field → List View → List View
field_views key f rest = f.gap ++ (string, key) ∷ f.value ∷ rest

module _ {D : Type 0} (floats : Floats D) (json : Bytes) (tokens : List Token) (n : ℕ) where
  abbrev number : View → D
  number = number_or floats (zero_double floats)

  double_after-field :
      (i : ℕ) (v : View) (key : Bytes) (f : Field) (rest : List View)
      → At json tokens n i (v ∷ field_views key f rest)
      → lacks key (v ∷ f.gap) ≡ true
      → (j : ℕ) × At json tokens n j (f.value ∷ rest)
        × ((next : ℕ → D → Outcome (Option (Balance D)))
            → double_after floats json tokens n i key next ≡ next j (number f.value))
  double_after-field i v key f rest at l =
      let (found, later) =
        json_find_token-gap json tokens n i key (v ∷ f.gap) (f.value ∷ rest) at l in
      let (t, there, is, reads, _) = At-head json tokens n _ _ _ later in
      let got = json_get_double-view floats json t f.value (zero_double floats) is reads in
      (i + length (v ∷ f.gap) + 1, later, λ next. unfold double_after in rw (found, there, got))

  currency_found :
      (i : ℕ) (t : Token) (currency : View)
      → json_find_token json tokens n 0 (codes "Currency") ≡ ok (pos i)
      → get_elem? tokens (i + 1) ≡ some t
      → json_get_string json t none ≡ ok (string_or none currency)
      → balance_of_tokens floats json tokens n
        ≡ double_after floats json tokens n (i + 1) (codes "Balance") λ j balance.
          double_after floats json tokens n j (codes "Available") λ k available.
            double_after floats json tokens n k (codes "Pending") λ l pending. ok (
              some (record {
                currency = string_or none currency;
                balance = balance;
                pending = pending;
                available = available;
              }))
  unfolding balance_of_tokens
  currency_found i t currency found there got = rw (found, there, got)

  of_tokens-fields :
      (currency balance available pending : Field) (tail : List View)
      → At json tokens n 0 (
          field_views (codes "Currency") currency (
            field_views (codes "Balance") balance (
              field_views
                (codes "Available")
                available
                (field_views (codes "Pending") pending tail))))
      → lacks (codes "Currency") currency.gap ≡ true
      → lacks (codes "Balance") (currency.value ∷ balance.gap) ≡ true
      → lacks (codes "Available") (balance.value ∷ available.gap) ≡ true
      → lacks (codes "Pending") (available.value ∷ pending.gap) ≡ true
      → balance_of_tokens floats json tokens n
        ≡ ok (
            some (record {
              currency = string_or none currency.value;
              balance = number balance.value;
              pending = number pending.value;
              available = number available.value;
            }))
  of_tokens-fields currency balance available pending tail at lc lb la lp =
      let (found, at_c) =
        json_find_token-gap json tokens n 0 (codes "Currency") currency.gap _ at lc in
      let (t, there, is, reads, _) = At-head json tokens n _ _ _ at_c in
      let got = json_get_string-view json t currency.value none is reads in
      let (j, at_b, eb) = double_after-field _ currency.value (codes "Balance") balance _ at_c lb in
      let (k, at_a, ea) =
        double_after-field j balance.value (codes "Available") available _ at_b la in
      let (l, at_p, ep) =
        double_after-field k available.value (codes "Pending") pending tail at_a lp in
      currency_found _ t currency.value found there got ∙ eb _ ∙ ea _ ∙ ep _

  -- An answer that lays out the four keys in order gives the currency, where its value is a string, and
  -- the three numbers behind the other keys.
  pub bittrex_parse_balance-fields :
      (jsmn : Tokenizer) (currency balance available pending : Field) (tail : List View)
      → jsmn json 1000 ≡ (pos n, tokens)
      → At json tokens n 0 (
          field_views (codes "Currency") currency (
            field_views (codes "Balance") balance (
              field_views
                (codes "Available")
                available
                (field_views (codes "Pending") pending tail))))
      → lacks (codes "Currency") currency.gap ≡ true
      → lacks (codes "Balance") (currency.value ∷ balance.gap) ≡ true
      → lacks (codes "Available") (balance.value ∷ available.gap) ≡ true
      → lacks (codes "Pending") (available.value ∷ pending.gap) ≡ true
      → bittrex_parse_balance floats jsmn json
        ≡ ok (
            some (record {
              currency = string_or none currency.value;
              balance = number balance.value;
              pending = number pending.value;
              available = number available.value;
            }))
  unfolding bittrex_parse_balance
  bittrex_parse_balance-fields jsmn currency balance available pending tail parsed at lc lb la lp =
      rw parsed (of_tokens-fields currency balance available pending tail at lc lb la lp)
