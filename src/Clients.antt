-- ===== src/Clients.antt =====
-- client/cgi_client.c: a client that asks the bridge for the trading pairs, and prints them as JSON.
-- The text of JSON is a parameter.
pub mod Listing
pub mod Message
mod Tests
use ken_code_de_bridge.Base.{
  Bool, Bytes, Floats, List, Option, Outcome, [], codes, deref, fault, if◌then◌else◌, leb, length,
  none, ok, replicate, some, ℕ, ◌&&◌, ◌++◌, ◌-◌, ◌>>=◌, ◌∷◌,
}
use ken_code_de_bridge.Book.{Market}
use ken_code_de_bridge.MarketCodec.{Protobuf, market_list_protobuf_decode}

-- What the members of a pair are: `json_object_new_string` and `json_object_new_double`.
pub data Member (D : Type 0) : Type 0 where
  text : Bytes → Member D
  double : D → Member D

-- An object is its members, in order, and the array its objects.
abbrev pub Object : Type 0 → Type 0
Object D = List (Bytes × Member D)

unfoldable pub send_error : Bytes → Bytes
send_error msg = codes "{ \"success\" : false, \"message\" : \"" ++ (msg ++ codes "\" }")

-- What stands in the way of a connection, with -1 as `none`.
pub record Connection : Type 0 where
  pub socket : Option ℕ
  pub host_found : Bool
  pub connects : Bool

unfoldable pub bridge_connect : Connection → Option ℕ
bridge_connect c = elim c.socket [
  | none ↦ none
  | some sockfd ↦ if c.host_found && c.connects then some sockfd else none
]

module _ {D : Type 0} (floats : Floats D) (pb : Protobuf) where
  listed : Option (List (Market D)) → List (Market D)
  listed none = []
  listed (some markets) = markets

  -- NULL is the empty list.
  unfoldable pub parse_markets : Bytes → ℕ → Outcome (List (Market D))
  unfolding listed
  parse_markets input input_length = do
    decoded ← market_list_protobuf_decode floats pb input input_length
    ok (listed decoded)

  -- A name that is NULL is read by `json_object_new_string`.
  unfoldable pub pair_object : Market D → Outcome (Object D)
  pair_object current = do
    base ← deref current.base_currency
    quoted ← deref current.market_currency
    ok (
        (codes "inputCoinType", text base)
        ∷ (codes "outputCoinType", text quoted)
        ∷ (codes "rateFee", double current.fee)
        ∷ [])

  unfoldable pub pair_objects : List (Market D) → Outcome (List (Object D))
  unfolding pair_object
  pair_objects [] = ok []
  pair_objects (current ∷ next) = do
    pair ← pair_object current
    pairs ← pair_objects next
    ok (pair ∷ pairs)

  module _ (to_json_string : List (Object D) → Bytes) where
    -- What is printed.
    unfoldable pub format_output : Bytes → ℕ → Outcome Bytes
    unfolding parse_markets pair_objects
    format_output input input_length = do
      head ← parse_markets input input_length
      parent ← pair_objects head
      ok (to_json_string parent)

    -- The one `read`, into 5000 bytes of zeros. Its failure gives -1, and as a `size_t` that is the
    -- length that is decoded.
    answer_output : Option Bytes → Outcome Bytes
    unfolding format_output
    answer_output none = fault
    answer_output (some incoming) =
        if leb (length incoming) 5000
        then format_output (incoming ++ replicate (5000 - length incoming) 0) (length incoming)
        else fault

    asked : Option ℕ → Option Bytes → Outcome (Bytes × Bytes)
    unfolding answer_output send_error
    asked none answer = ok ([], send_error (codes "Unable to connect to bridge"))
    asked (some sockfd) answer = do out ← answer_output answer; ok (codes "trading_pairs", out)

    -- What is sent to the bridge, and what is printed. A failing `write` gives -1, which as a
    -- `size_t` is no failure.
    unfoldable pub cgi_main : Connection → Option Bytes → Outcome (Bytes × Bytes)
    unfolding asked bridge_connect
    cgi_main connection answer = asked (bridge_connect connection) answer
