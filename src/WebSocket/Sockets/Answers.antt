-- ===== src/WebSocket/Sockets/Answers.antt =====
-- What the callbacks and the connection make of the answers of the system.
use ken_code_de_bridge.Base.{
  Bool, Bytes, List, Option, Outcome, [], arith, inl, inr, none, ok, refl, some, true, ℕ, ◌==◌, ◌↔◌,
  ◌∷◌, ◌≡◌, ◌≢◌, ◌⊎◌,
}
use ken_code_de_bridge.WebSocket.Sockets.{
  Address, Descriptors, Errno, Sys, WslayError, close, connect_loop, connect_to, connected, eagain,
  eintr, err_callback_failure, err_wouldblock, error_of, ewouldblock, failed_with, gave,
  other_errno, received_result, recv_callback, retried, send_callback, sent_result, tried,
  websocket_client_recv_data, websocket_client_send_data,
}

-- The first answer that is not an interruption.
pub data Answered {A : Type 0} : List (Sys A) → Sys A → Type 0 where
  gives : {a : A} {answers : List (Sys A)} → Answered (gave a ∷ answers) (gave a)
  fails :
      {e : Errno} {answers : List (Sys A)}
      → e ≢ eintr
      → Answered (failed_with e ∷ answers) (failed_with e)
  again :
      {r : Sys A} {answers : List (Sys A)}
      → Answered answers r
      → Answered (failed_with eintr ∷ answers) r

retried_failed :
    {A : Type 0} (e : Errno) (answers : List (Sys A))
    → e ≢ eintr
    → retried (failed_with e ∷ answers) ≡ ok (failed_with e)
unfolding retried
retried_failed eintr answers h = absurd (h refl)
retried_failed eagain answers h = refl
retried_failed ewouldblock answers h = refl
retried_failed other_errno answers h = refl

retried-Answered :
    {A : Type 0} {answers : List (Sys A)} {r : Sys A} → Answered answers r → retried answers ≡ ok r
unfolding retried
retried-Answered gives = refl
retried-Answered (fails {e} {answers} other) = retried_failed e answers other
retried-Answered (again h) = retried-Answered h

abbrev WouldBlock : {A : Type 0} → Sys A → Type 0
WouldBlock r = (r ≡ failed_with eagain) ⊎ (r ≡ failed_with ewouldblock)

-- A result says -1 exactly with an error, and that it would block exactly where the system says so.
abbrev Tells : {A B : Type 0} → Sys B → Option A × Option WslayError → Type 0
Tells r (x, error) = ((x ≡ none) ↔ (error ≢ none)) × ((error ≡ some err_wouldblock) ↔ WouldBlock r)

-- -1 comes from a call.
abbrev pub IsReported : {A B : Type 0} → Sys B → Outcome (Option A × Option WslayError) → Type 0
IsReported r m = (result : _) × (m ≡ ok result) × Tells r result

blocks-Tells :
    {A B : Type 0} (e : Errno) → Tells {A = A} {B = B} (failed_with e) (none, some (error_of e))
blocks-Tells eintr =
    ((λ _ h. cc h, λ _. refl), (λ h. cc h, λ h. elim h [ inl e ↦ cc e | inr e ↦ cc e ]))
blocks-Tells eagain = ((λ _ h. cc h, λ _. refl), (λ _. inl refl, λ _. refl))
blocks-Tells ewouldblock = ((λ _ h. cc h, λ _. refl), (λ _. inr refl, λ _. refl))
blocks-Tells other_errno =
    ((λ _ h. cc h, λ _. refl), (λ h. cc h, λ h. elim h [ inl e ↦ cc e | inr e ↦ cc e ]))

gave-Tells : {A B : Type 0} (b : B) (a : A) → Tells (gave b) (some a, none)
gave-Tells b a =
    ((λ h. cc h, λ h. absurd (h refl)), (λ h. cc h, λ h. elim h [ inl e ↦ cc e | inr e ↦ cc e ]))

received-Tells : (r : Sys Bytes) → Tells r (received_result r)
unfolding received_result
received-Tells (failed_with e) = blocks-Tells e
received-Tells (gave []) =
    ((λ _ h. cc h, λ _. refl), (λ h. cc h, λ h. elim h [ inl e ↦ cc e | inr e ↦ cc e ]))
received-Tells (gave (c ∷ bytes)) = gave-Tells (c ∷ bytes) (c ∷ bytes)

sent-Tells : (r : Sys ℕ) → Tells r (sent_result r)
unfolding sent_result
sent-Tells (failed_with e) = blocks-Tells e
sent-Tells (gave n) = gave-Tells n n

-- Where the system answers, at last, with something else than an interruption, both callbacks of
-- wslay return: -1 exactly with an error set, and the error that it would block exactly for EAGAIN
-- and EWOULDBLOCK. The end of the stream is an error of `recv_callback`.
pub callbacks-IsReported :
    (more : Bool) (send : Bool → List (Sys ℕ)) (recv : List (Sys Bytes)) (s : Sys ℕ) (r : Sys Bytes)
    (later : List (Sys Bytes))
    → Answered (send more) s
    → Answered recv r
    → IsReported s (send_callback send more)
      × (IsReported r (recv_callback recv)
          × (recv_callback (gave [] ∷ later) ≡ ok (none, some err_callback_failure)))
unfolding send_callback recv_callback websocket_client_send_data websocket_client_recv_data
    received_result retried
callbacks-IsReported more send recv s r later hs hr =
    let es = retried-Answered hs in
    let er = retried-Answered hr in
    ((sent_result s, rw es, sent-Tells s), ((received_result r, rw er, received-Tells r), refl))

-- The first address that a connection is made to.
pub data Found : List Address → Option ℕ → Type 0 where
  none_left : Found [] none
  no_socket :
      {connect : List (Sys (Unit {0}))} {res : List Address} {r : Option ℕ}
      → Found res r
      → Found (record { socket = none; connect = connect } ∷ res) r
  refused :
      {fd : ℕ} {e : Errno} {connect : List (Sys (Unit {0}))} {res : List Address} {r : Option ℕ}
      → Answered connect (failed_with e)
      → Found res r
      → Found (record { socket = some fd; connect = connect } ∷ res) r
  accepted :
      {fd : ℕ} {connect : List (Sys (Unit {0}))} {res : List Address}
      → Answered connect (gave tt)
      → Found (record { socket = some fd; connect = connect } ∷ res) (some fd)

abbrev pub with_open : Option ℕ → Descriptors → Descriptors
with_open none fds = fds
with_open (some fd) fds = fd ∷ fds

pub close_last : (fd : ℕ) (fds : Descriptors) → close fd (fd ∷ fds) ≡ fds
unfolding close
close_last fd fds = let same : (fd == fd) ≡ true = ground arith in rw same

connect_loop-Found :
    {res : List Address} {r : Option ℕ} (fds : Descriptors)
    → Found res r
    → connect_loop res fds ≡ ok (r, with_open r fds)
unfolding connect_loop tried connected
connect_loop-Found fds none_left = refl
connect_loop-Found fds (no_socket h) = connect_loop-Found fds h
connect_loop-Found fds (refused {fd} ha h) =
    rw (retried-Answered ha, close_last fd fds) (connect_loop-Found fds h)
connect_loop-Found fds (accepted ha) = rw (retried-Answered ha)

-- The connection is made to the first address that takes one, whatever signals come, and its
-- descriptor is the only one that is left open of those that were tried.
pub connect_to-Found :
    {res : List Address} {r : Option ℕ} (fds : Descriptors)
    → Found res r
    → connect_to (some res) fds ≡ ok (r, with_open r fds)
unfolding connect_to
connect_to-Found fds h = connect_loop-Found fds h
