-- ===== src/Clients/Message.antt =====
-- client/test_client.c: a client that sends its argument, and prints what it reads.
use ken_code_de_bridge.Base.{
  Bool, Bytes, List, Option, [], codes, false, length, none, refl, replicate, some, suc, take, true,
  zero, ℕ, ◌++◌, ◌-◌, ◌∷◌, ◌≡◌,
}
use ken_code_de_bridge.Clients.{Connection, bridge_connect}

-- A C string of a buffer.
abbrev pub until_nul : Bytes → Bytes
until_nul [] = []
until_nul (zero ∷ bytes) = []
until_nul (suc c ∷ bytes) = suc c ∷ until_nul bytes

-- What is printed: the usage, an error, or the message with the number of bytes read, the first of
-- them and the string that they are.
pub data Printed : Type 0 where
  usage : Printed
  failure : Printed
  dialogue : (message : Bytes) (n first_byte : ℕ) (result : Bytes) → Printed

abbrev first_of : Bytes → ℕ
first_of [] = 0
first_of (c ∷ bytes) = c

unfoldable pub socket_open : Connection → Option ℕ
unfolding bridge_connect
socket_open connection = bridge_connect connection

-- The buffer has 256 bytes, all 0, of which 255 are read at most.
answered : Bytes → Option Bytes → Printed
answered message none = failure
answered message (some incoming) =
    let buffer = take 255 incoming ++ replicate (256 - length (take 255 incoming)) 0 in
    dialogue message (length (take 255 incoming)) (first_of buffer) (until_nul buffer)

written : Option ℕ → Bytes → Bool → Option Bytes → Printed
unfolding answered
written none message sent answer = failure
written (some sockfd) message false answer = failure
written (some sockfd) message true answer = answered message answer

-- The arguments behind the name of the program; the second is the port.
unfoldable pub test_client_main : List Bytes → Connection → Bool → Option Bytes → Printed
unfolding written socket_open
test_client_main (hostname ∷ portno ∷ message ∷ others) connection sent answer =
    written (socket_open connection) message sent answer
test_client_main arguments connection sent answer = usage

-- Without an answer, the string is empty.
closed_at_once :
    test_client_main
      (codes "localhost" ∷ codes "12345" ∷ codes "hi" ∷ [])
      (record { socket = some 4; host_found = true; connects = true })
      true
      (some [])
    ≡ dialogue (codes "hi") 0 0 []
unfolding test_client_main
closed_at_once = refl
