-- ===== src/Levels/Ends.antt =====
-- The first loop ends on any tokens.
use ken_code_de_bridge.Base.{
  Bool-cases, Bytes, Ensures-bind, Ensures-if, Floats, List, Option-cases, Outcome, arith, false,
  get_elem?, inl, inr, ltb, negsuc, pos, refl, suc, zero, ℕ, ℤ, ◌+◌, ◌<◌, ◌==◌, ◌>>=◌, ◌≡◌, ◌≤◌,
  ◌⊎◌,
}
use ken_code_de_bridge.Book.{Book, zero_double}
use ken_code_de_bridge.Book.Merge.{Setter}
use ken_code_de_bridge.Json.{Token}
use ken_code_de_bridge.Json.Progress.{Ends, Found, json_get_double-Ends}
use ken_code_de_bridge.Levels.{first_loop, or_all, read_number}

pub Ends-bind {ℓ κ} :
    {A : Type ℓ} {B : Type κ} (m : Outcome A) (f : A → Outcome B)
    → Ends m
    → ((a : A) → Ends (f a))
    → Ends (m >>= f)
Ends-bind m f h next = Ensures-bind (λ _. Unit) (λ _. Unit) m f h (λ a _. next a)

abbrev pub AtMost : ℕ → ℤ → Type 0
AtMost n (pos stop) = stop ≤ n
AtMost n (negsuc _) = Unit

pub or_all-AtMost : (n : ℕ) (r : ℤ) → Found 0 n r → AtMost n (or_all n r)
or_all-AtMost n (pos zero) h = omega arith
or_all-AtMost n (pos (suc i)) h = omega (arith, h.1)
or_all-AtMost n (negsuc i) h = tt

module _ {D : Type 0} (floats : Floats D) (json : Bytes) (tokens : List Token) where
  pub read_number-Ends : (i : ℕ) → Ends (read_number floats json tokens i)
  unfolding read_number
  read_number-Ends i = elim (Option-cases (get_elem? tokens i)) [
    | inl none_there ↦ rw none_there tt
    | inr (t, there) ↦ rw there (json_get_double-Ends floats json t (zero_double floats))
  ]

  pub first_loop-Ends :
      (write : Setter floats) (n fuel i : ℕ) (stop : ℤ) (book : List (Book D))
      → AtMost n stop
      → ((i ≡ 0) × (0 < fuel)) ⊎ (n + 1 < fuel + i) × (0 < fuel)
      → Ends (first_loop floats json tokens write fuel i stop book)
  unfolding first_loop
  first_loop-Ends write n zero i stop book most enough = absurd (omega (arith, enough))
  first_loop-Ends write n (suc fuel) zero stop book most enough = tt
  first_loop-Ends write n (suc fuel) (suc i) (negsuc k) book most enough =
      let test : (suc i == 0) ≡ false = ground arith in rw test tt
  first_loop-Ends write n (suc fuel) (suc i) (pos stop) book most enough =
      let test : (suc i == 0) ≡ false = ground arith in
      elim (Bool-cases (ltb (suc i) stop)) [
        | inl below ↦
            rw (test, below)
              (Ends-bind _ _ (read_number-Ends (suc i)) λ quantity.
                Ends-bind _ _ (read_number-Ends (suc i + 1)) λ rate.
                  Ensures-if (λ _. Unit) (ltb (suc i + 3) stop) _ _
                    (first_loop-Ends write n fuel (suc i + 3) (pos stop) _ most
                      (inr (ground (arith, below), ground (arith, below))))
                    (first_loop-Ends write n fuel 0 (pos stop) book most
                      (inl (refl, ground (arith, below)))))
        | inr past ↦ rw (test, past) tt
      ]
