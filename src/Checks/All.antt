-- ===== src/Checks/All.antt =====
-- test/testit.c: the tests with their names, in the order of `names` and `funcs`.
use ken_code_de_bridge.Base.{
  Bool, Bytes, List, Outcome, [], codes, equal, false, ok, refl, true, ◌∷◌, ◌≡◌,
}
use ken_code_de_bridge.Vendors.{Vendor}
use ken_code_de_bridge.Vendors.Calls.{Outside}
use ken_code_de_bridge.Checks.{
  test_bittrex_account_balance, test_book_all, test_book_bittrex, test_book_bittrex_url,
  test_book_btc38, test_book_mock, test_book_poloniex, test_btc38_account_balance,
  test_market_bittrex, test_poloniex_account_balance,
}
use ken_code_de_bridge.Checks.Runner.{
  Line, Test, argument, failed, is_wanted, main, passed, run_tests, test_wanted,
}

-- The texts that the calls give, up to the first that gives none.
all_received : List Bytes → Bool
all_received [] = true
all_received ([] ∷ texts) = false
all_received ((c ∷ text) ∷ texts) = all_received texts

-- Whether the client is connected, and what its five calls give.
unfoldable pub test_connect : Bool → List Bytes → Bool
unfolding all_received
test_connect false received = false
test_connect true received = all_received received

abbrev test : Bytes → Outcome Bool → Test
test name result = record { name = name; result = result }

module _ {D : Type 0} (at_most_zero : D → Bool) (outside : Outside D) (vendors : List (Vendor D))
    (connected : Bool) (received : List Bytes) where
  unfoldable pub funcs : List Test
  unfolding test_connect test_book_mock test_book_bittrex_url test_book_bittrex test_market_bittrex
      test_book_btc38 test_book_all test_book_poloniex test_poloniex_account_balance
      test_bittrex_account_balance test_btc38_account_balance
  funcs =
      test (codes "test_connect") (ok (test_connect connected received))
      ∷ test (codes "test_book_mock") (test_book_mock at_most_zero outside)
      ∷ test (codes "test_book_bittrex_url") test_book_bittrex_url
      ∷ test (codes "test_book_bittrex") (test_book_bittrex at_most_zero outside)
      ∷ test (codes "test_market_bittrex") (test_market_bittrex at_most_zero outside)
      ∷ test (codes "test_book_btc38") (test_book_btc38 at_most_zero outside)
      ∷ test (codes "test_book_all") (test_book_all at_most_zero outside vendors)
      ∷ test (codes "test_book_poloniex") (test_book_poloniex at_most_zero outside)
      ∷ test (codes "test_poloniex_account_balance")
          (test_poloniex_account_balance at_most_zero outside)
      ∷ test (codes "test_bittrex_account_balance")
          (test_bittrex_account_balance at_most_zero outside)
      ∷ test (codes "test_btc38_account_balance") (test_btc38_account_balance at_most_zero outside)
      ∷ []

  -- What the program says of one test.
  abbrev pub report : Bool → Line
  report true = passed 1
  report false = failed 1

  -- Named alone, test_book_bittrex decides the last line.
  pub main-test_book_bittrex :
      (b : Bool)
      → test_book_bittrex at_most_zero outside ≡ ok b
      → main funcs (codes "test_book_bittrex" ∷ []) ≡ ok (report b, 1)
  unfolding main run_tests is_wanted argument test_wanted funcs equal
  main-test_book_bittrex true e = rw e refl
  main-test_book_bittrex false e = rw e refl
