-- ===== src/Clients/Listing.antt =====
-- What a client prints of an answer of the bridge.
use mathlib.Core.Path.{subst}
use ken_code_de_bridge.Server.Reads.{read_request-joined}
use ken_code_de_bridge.Vendors.{Khash, Vendor}
use ken_code_de_bridge.Vendors.Keys.{IsKhash}
use ken_code_de_bridge.Vendors.Firsts.{ListsPairs, PlainNames}
use ken_code_de_bridge.Vendors.Pairs.{AllReady}
use ken_code_de_bridge.Server.{Answer, do_connect, read_request, sends}
use ken_code_de_bridge.Server.Answers.{Reads, do_connect-trading_pairs}
use ken_code_de_bridge.Base.{
  Bytes, Floats, List, Option, Outcome, [], arith, codes, is_prefix, leb, length, map, ok, refl,
  replicate, some, true, ℕ, ◌++◌, ◌-◌, ◌<◌, ◌^◌, ◌∷◌, ◌≡◌, ◌≤◌,
}
use ken_code_de_bridge.Book.{Market}
use ken_code_de_bridge.MarketCodec.{
  IsProtobuf, Protobuf, fee_as_int, fee_of_int, market_list_protobuf_decode,
}
use ken_code_de_bridge.MarketCodec.Fits.{AllNamed, IsNamed}
use ken_code_de_bridge.MarketCodec.RoundTrip.Lists.{kept}
use ken_code_de_bridge.Clients.{
  Connection, Object, answer_output, asked, bridge_connect, cgi_main, double, format_output, listed,
  pair_object, pair_objects, parse_markets, text,
}

-- The object of a market: its names, and its fee as the message keeps it.
abbrev pub shown : {D : Type 0} → Floats D → (m : Market D) → IsNamed m → Object D
shown floats m named =
    (codes "inputCoinType", text named.base)
    ∷ (codes "outputCoinType", text named.quoted)
    ∷ (codes "rateFee", double (fee_of_int floats (fee_as_int floats m.fee)))
    ∷ []

abbrev pub all_shown :
    {D : Type 0} → Floats D → (ms : List (Market D)) → AllNamed ms → List (Object D)
all_shown floats [] named = []
all_shown floats (m ∷ ms) (named, later) = shown floats m named ∷ all_shown floats ms later

module _ {D : Type 0} (floats : Floats D) (pb : Protobuf)
    (to_json_string : List (Object D) → Bytes) where
  pair_objects-kept :
      (ms : List (Market D)) (named : AllNamed ms)
      → pair_objects floats pb (map (kept floats) ms) ≡ ok (all_shown floats ms named)
  unfolding pair_objects pair_object
  pair_objects-kept [] named = refl
  pair_objects-kept (m ∷ ms) (named, later) =
      rw (named.has_base, named.has_quoted, pair_objects-kept ms later)

  cgi_main_answer :
      (connection : Connection) (sockfd : ℕ) (out : Bytes) (ms : List (Market D))
      (named : AllNamed ms)
      → bridge_connect connection ≡ some sockfd
      → length out ≤ 5000
      → ((behind : Bytes)
          → market_list_protobuf_decode floats pb (out ++ behind) (length out)
            ≡ ok (some (map (kept floats) ms)))
      → cgi_main floats pb to_json_string connection (some out)
        ≡ ok (codes "trading_pairs", to_json_string (all_shown floats ms named))
  unfolding cgi_main asked answer_output format_output parse_markets listed
  cgi_main_answer connection sockfd out ms named ec fits reads =
      let short : leb (length out) 5000 ≡ true = ground arith in
      rw (ec, short, reads (replicate (5000 - length out) 0), pair_objects-kept ms named)

module _ {D : Type 0} (floats : Floats D) (pb : Protobuf) (khash : Khash (Market D))
    (laws : IsProtobuf pb) (table_laws : IsKhash khash) (u64 : (x : D) → floats.to_u64 x < 2 ^ 64)
    (to_json_string : List (Object D) → Bytes) where
  abbrev request : Bytes
  request = codes "trading_pairs"

  request_read : (later : List (Option Bytes)) → read_request (some request ∷ later) [] ≡ ok request
  request_read later = read_request-joined [] request later [] tt (ground arith) (ground arith)

  request_asks : is_prefix (codes "trading_pairs") request ≡ true
  unfolding is_prefix
  request_asks = refl

  out_decoded :
      (ms : List (Market D)) (answer : Answer) (out : Bytes)
      → answer ≡ sends out
      → Reads floats pb khash laws table_laws u64 ms answer
      → (behind : Bytes)
      → market_list_protobuf_decode floats pb (out ++ behind) (length out)
        ≡ ok (some (map (kept floats) ms))
  out_decoded [] answer out e reads =
      absurd (subst (Reads floats pb khash laws table_laws u64 []) e reads)
  out_decoded (m ∷ ms) answer out e reads =
      subst (Reads floats pb khash laws table_laws u64 (m ∷ ms)) e reads

  sent_out :
      (m : Outcome Answer) (answer : Answer) (out : Bytes)
      → m ≡ ok answer
      → m ≡ ok (sends out)
      → answer ≡ sends out
  sent_out m answer out e f = cc (e, f)

  -- From the vendors to what a client prints. Where every vendor is initialized, every market has
  -- both names and no base name has '~', and the bridge answers what the client sends with at most
  -- 5000 bytes, which the client reads at once, the client prints an array with an object for each
  -- trading pair of the vendors, once each and with no other, with its names and the fee of the first
  -- market of the pair, cut to thousandths. The hash table and the protobuf library keep their
  -- contracts.
  pub cgi_main-trading_pairs :
      (vs : List (Vendor D)) (ready : AllReady floats vs) (later : List (Option Bytes))
      (connection : Connection) (sockfd : ℕ) (out : Bytes)
      → PlainNames floats vs ready
      → bridge_connect connection ≡ some sockfd
      → do_connect floats pb khash vs (some (codes "trading_pairs") ∷ later) ≡ ok (sends out)
      → length out ≤ 5000
      → (pairs : List (Market D)) × (listed : ListsPairs floats vs ready pairs) × (cgi_main floats
            pb to_json_string connection
            (some out)
          ≡ ok (codes "trading_pairs", to_json_string (all_shown floats pairs listed.named)))
  cgi_main-trading_pairs vs ready later connection sockfd out plain ec answered fits =
      let (answer, ea, (pairs, listed, reads)) =
        do_connect-trading_pairs floats pb khash laws table_laws u64 vs ready (some request ∷ later)
          b't' (codes "rading_pairs") plain (request_read later) request_asks in
      let sent = sent_out _ answer out ea answered in
      (
        pairs,
        listed,
        cgi_main_answer floats pb to_json_string connection sockfd out pairs listed.named ec fits
            (out_decoded pairs answer out sent reads),
      )
