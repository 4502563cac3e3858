-- ===== src/Checks/Runner.antt =====
-- test/testit.c: all tests, or the one that the command line names, and what is printed of them.
use mathlib.Core.Path.{subst}
use ken_code_de_bridge.Base.{
  Bool, Bool-cases, Bytes, List, Option, Outcome, [], ap, arith, equal, false, if◌then◌else◌, inl,
  inr, length, none, ok, refl, some, suc, take, tests, true, zero, ℕ, ◌+◌, ◌-◌, ◌==◌, ◌>>=◌, ◌∙◌,
  ◌∷◌, ◌≡◌,
}

-- A test with its name: `names` and `funcs` have the same length.
pub record Test : Type 0 where
  pub name : Bytes
  pub result : Outcome Bool

-- `testit` returns whether the test has failed.
abbrev pub testit : Bool → ℕ
testit true = 0
testit false = 1

-- The name on the command line, which some shells put into quotes: the last byte is then cut, and
-- the first one passed over.
unfoldable pub test_wanted : Bytes → Bytes
test_wanted [] = []
test_wanted (c ∷ name) = if c == 39 then take (length name - 1) name else c ∷ name

unfoldable pub is_wanted : Option Bytes → Bytes → Bool
unfolding equal
is_wanted none name = true
is_wanted (some wanted) name = equal name wanted

-- The loop, with `tests_ran` and `counter`.
unfoldable pub run_tests : Option Bytes → List Test → ℕ → ℕ → Outcome (ℕ × ℕ)
unfolding is_wanted
run_tests wanted [] tests_ran counter = ok (tests_ran, counter)
run_tests wanted (test ∷ tests) tests_ran counter =
    let rest = run_tests wanted tests tests_ran counter in
    let ran = do
      passed ← test.result
      run_tests wanted tests (tests_ran + 1) (counter + testit passed)
    in if is_wanted wanted test.name then ran else rest

-- The last line.
pub data Line : Type 0 where
  no_tests : Line
  failed : ℕ → Line
  passed : ℕ → Line

abbrev pub last_line : ℕ × ℕ → Line
last_line (zero, counter) = no_tests
last_line (suc tests_ran, zero) = passed (suc tests_ran)
last_line (suc tests_ran, suc counter) = failed (suc counter)

unfoldable pub argument : List Bytes → Option Bytes
unfolding test_wanted
argument [] = none
argument (name ∷ others) = some (test_wanted name)

-- The arguments behind the name of the program; the line, and what `main` returns.
unfoldable pub main : List Test → List Bytes → Outcome (Line × ℕ)
unfolding run_tests argument
main tests arguments = do
  counted ← run_tests (argument arguments) tests 0 0
  ok (last_line counted, 1)

-- An independent description: the tests that are wanted, and how many of them fail.
abbrev pub wanted_of : Option Bytes → List Test → List Test
wanted_of wanted [] = []
wanted_of wanted (test ∷ tests) =
    let rest = wanted_of wanted tests in if is_wanted wanted test.name then test ∷ rest else rest

abbrev pub fails : Outcome Bool → ℕ
fails (ok false) = 1
fails other = 0

abbrev pub failures : List Test → ℕ
failures [] = 0
failures (test ∷ tests) = fails test.result + failures tests

-- No test reads through NULL, or goes on forever.
abbrev pub AllEnd : List Test → Type 0
AllEnd [] = Unit
AllEnd (test ∷ tests) = ((b : Bool) × (test.result ≡ ok b)) × AllEnd tests

testit-fails : (b : Bool) → testit b ≡ fails (ok b)
testit-fails true = refl
testit-fails false = refl

same_pair : {m n c d : ℕ} → m ≡ n → c ≡ d → ◌≡◌ {A = ℕ × ℕ} (m, c) (n, d)
same_pair e f = rw (e, f)

counts : {m n c d : ℕ} → m ≡ n → c ≡ d → ◌≡◌ {A = Outcome (ℕ × ℕ)} (ok (m, c)) (ok (n, d))
counts e f = ap ok (same_pair e f)

-- The counts of the tests that are wanted, added to those before.
abbrev counted : ℕ → ℕ → List Test → Outcome (ℕ × ℕ)
counted tests_ran counter ran = ok (tests_ran + length ran, counter + failures ran)

module _ (wanted : Option Bytes) where
  wanted_of-test :
      (test : Test) (others : List Test)
      → is_wanted wanted test.name ≡ true
      → wanted_of wanted (test ∷ others) ≡ test ∷ wanted_of wanted others
  wanted_of-test test others e = rw e refl

  wanted_of-other :
      (test : Test) (others : List Test)
      → is_wanted wanted test.name ≡ false
      → wanted_of wanted (test ∷ others) ≡ wanted_of wanted others
  wanted_of-other test others e = rw e refl

  run_tests-counts :
      (all : List Test) (tests_ran counter : ℕ)
      → AllEnd (wanted_of wanted all)
      → run_tests wanted all tests_ran counter ≡ counted tests_ran counter (wanted_of wanted all)
  unfolding run_tests
  run_tests-counts [] tests_ran counter ends = counts (omega arith) (omega arith)
  run_tests-counts (test ∷ others) tests_ran counter ends =
      elim (Bool-cases (is_wanted wanted test.name)) [
        | inr other ↦
            let skipped = wanted_of-other test others other in
            let ends' = subst AllEnd skipped ends in
            rw (skipped, other) (run_tests-counts others tests_ran counter ends')
        | inl it_is ↦
            let taken = wanted_of-test test others it_is in
            let ((b, e), ends') = subst AllEnd taken ends in
            rw (taken, it_is, e)
              (run_tests-counts others (tests_ran + 1) (counter + testit b) ends'
                ∙ counts (omega arith) (omega (arith, testit-fails b)))
      ]

-- Where the tests that are wanted end, testit.c counts them and those of them that fail; it prints
-- that there are none, how many fail, or that all pass, and returns 1 in each case.
pub main-counts :
    (all : List Test) (arguments : List Bytes)
    → AllEnd (wanted_of (argument arguments) all)
    → main all arguments
      ≡ ok (
        last_line (
          length (wanted_of (argument arguments) all),
          failures (wanted_of (argument arguments) all),
        ),
        1,
      )
unfolding main
main-counts all arguments ends =
    rw (run_tests-counts (argument arguments) all 0 0 ends)
      (ap (λ c. ok (last_line c, 1)) (same_pair (omega arith) (omega arith)))
