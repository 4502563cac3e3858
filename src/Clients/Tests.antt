-- ===== src/Clients/Tests.antt =====
-- client/cgi_client.c at a small answer.
use ken_code_de_bridge.Book.{Market}
use ken_code_de_bridge.MarketCodec.{
  market_list_protobuf_decode, market_list_protobuf_encode, market_list_protobuf_encode_size,
}
use ken_code_de_bridge.Vendors.Firsts.{ListsPairs}
use ken_code_de_bridge.Clients.Listing.{all_shown, cgi_main-trading_pairs}
use ken_code_de_bridge.Base.{
  Bytes, List, [], arith, codes, equal, false, none, ok, refl, some, true, ℕ, ◌++◌, ◌∷◌, ◌≡◌,
}
use ken_code_de_bridge.Fixtures.{small_micro, small_u64}
use ken_code_de_bridge.MarketCodec.Plain.{plain, plain-IsProtobuf}
use ken_code_de_bridge.Vendors.Sample.{both_plain, both_ready, listed, listed-IsKhash, two_vendors}
use ken_code_de_bridge.Server.{do_connect, sends}
use ken_code_de_bridge.Clients.{Connection, Member, Object, bridge_connect, cgi_main, double, text}

-- Only the names of the members and the texts, one behind the other.
abbrev member_text : Member ℕ → Bytes
member_text (text str) = str
member_text (double x) = x ∷ []

abbrev object_text : Object ℕ → Bytes
object_text [] = []
object_text ((key, value) ∷ members) = key ++ (member_text value ++ object_text members)

abbrev array_text : List (Object ℕ) → Bytes
array_text [] = []
array_text (o ∷ objects) = object_text o ++ array_text objects

abbrev local_bridge : Connection
local_bridge = record { socket = some 4; host_found = true; connects = true }

-- The two messages of the pairs, with fees below a thousandth.
abbrev sent_bytes : Bytes
sent_bytes =
    (2 ∷ 13 ∷ 2 ∷ 3 ∷ codes "BTC")
    ++ ((4 ∷ 4 ∷ codes "DOGE")
        ++ (7 ∷ 0 ∷ 2 ∷ 12 ∷ 2 ∷ 3 ∷ codes "BTC")
        ++ (4 ∷ 3 ∷ codes "LTC")
        ++ (7 ∷ 0 ∷ []))

two_answered :
    do_connect small_micro plain listed two_vendors (some (codes "trading_pairs") ∷ [])
    ≡ ok (sends sent_bytes)
unfolding do_connect equal market_list_protobuf_encode_size market_list_protobuf_encode
two_answered = refl

local_connects : bridge_connect local_bridge ≡ some 4
unfolding bridge_connect
local_connects = refl

cgi_main-trading_pairs_example :
    (pairs : List (Market ℕ)) × (shows : ListsPairs small_micro two_vendors both_ready pairs)
    × (cgi_main small_micro plain array_text local_bridge (some sent_bytes)
        ≡ ok (codes "trading_pairs", array_text (all_shown small_micro pairs shows.named)))
cgi_main-trading_pairs_example =
    cgi_main-trading_pairs small_micro plain listed plain-IsProtobuf listed-IsKhash small_u64
      array_text two_vendors both_ready [] local_bridge 4 sent_bytes both_plain local_connects
      two_answered (ground arith)

-- What is printed of them.
printed :
    cgi_main small_micro plain array_text local_bridge (some sent_bytes)
    ≡ ok (
      codes "trading_pairs",
      codes "inputCoinTypeBTCoutputCoinTypeDOGErateFee"
          ++ ((0 ∷ codes "inputCoinTypeBTCoutputCoinTypeLTCrateFee") ++ (0 ∷ [])),
    )
unfolding cgi_main market_list_protobuf_decode
printed = refl

-- Without a connection, nothing is sent.
refused :
    cgi_main small_micro plain array_text (record local_bridge { connects = false }) none
    ≡ ok ([], codes "{ \"success\" : false, \"message\" : \"Unable to connect to bridge\" }")
unfolding cgi_main
refused = refl
