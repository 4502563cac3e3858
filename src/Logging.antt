-- ===== src/Logging.antt =====
-- utils/logging.c. What is written to stderr is the bytes; `printf` is a parameter, of the format and
-- the value.
use ken_code_de_bridge.Base.{
  Bool, Bytes, [], if◌then◌else◌, length, ltb, refl, snprintf, true, ℕ, ◌++◌, ◌+◌, ◌∷◌, ◌≡◌,
}

abbrev pub loglevel_debug : ℕ
loglevel_debug = 1

abbrev pub loglevel_error : ℕ
loglevel_error = 2

abbrev pub current_loglevel : ℕ
current_loglevel = 0

unfoldable pub loglevel : ℕ → Bool
loglevel log_level = ltb current_loglevel log_level

unfoldable pub logit : ℕ → Bytes → Bytes
unfolding loglevel
logit log_level message = if loglevel log_level then message ++ (10 ∷ []) else []

module _ {A : Type 0} (printf : Bytes → A → Bytes) where
  -- A message of `size` bytes with its NUL.
  logit_of : ℕ → ℕ → Bytes → A → Bytes
  unfolding loglevel logit
  logit_of size log_level message param =
      if loglevel log_level then logit log_level (snprintf size (printf message param)) else []

  unfoldable pub logit_int : ℕ → Bytes → A → Bytes
  unfolding logit_of
  logit_int log_level message param = logit_of (length message + 12) log_level message param

  unfoldable pub logit_double : ℕ → Bytes → A → Bytes
  unfolding logit_of
  logit_double log_level message param = logit_of (length message + 20) log_level message param

-- The string that is put in is as long as it is.
unfoldable pub logit_string : (Bytes → Bytes → Bytes) → ℕ → Bytes → Bytes → Bytes
unfolding logit_of
logit_string printf log_level message param =
    logit_of printf (length message + length param + 1) log_level message param

-- Both levels of the program are logged.
both_logged : (loglevel loglevel_debug ≡ true) × (loglevel loglevel_error ≡ true)
unfolding loglevel
both_logged = (refl, refl)
