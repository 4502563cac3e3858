-- ===== src/Server/Answers.antt =====
-- The answer to "trading_pairs", from the vendors to the client.
use ken_code_de_bridge.MarketCodec.{IsProtobuf, Protobuf, market_list_protobuf_decode}
use ken_code_de_bridge.MarketCodec.RoundTrip.Lists.{
  kept, market_list_protobuf_decode-behind, market_list_protobuf_decode-nothing,
}
use ken_code_de_bridge.Server.{
  Answer, do_connect, encoded, get_command, get_trading_pairs, handle, no_results, read_request,
  result_answer, run_command, sends,
}
use ken_code_de_bridge.Base.{
  Bytes, Floats, List, Option, Outcome, [], arith, codes, false, is_prefix, length, map, none, ok,
  refl, some, sym, true, ℕ, ◌++◌, ◌<◌, ◌^◌, ◌∙◌, ◌∷◌, ◌≡◌, ◌≢◌,
}
use ken_code_de_bridge.Book.{Market}
use ken_code_de_bridge.MarketCodec.Fits.{AllNamed}
use ken_code_de_bridge.Vendors.{Khash, Vendor, vendor_get_all_trading_pairs}
use ken_code_de_bridge.Vendors.Keys.{IsKhash}
use ken_code_de_bridge.Vendors.Firsts.{ListsPairs, PlainNames, vendor_get_all_trading_pairs-firsts}
use ken_code_de_bridge.Vendors.Pairs.{AllReady}

module _ {D : Type 0} (floats : Floats D) (pb : Protobuf) (khash : Khash (Market D))
    (laws : IsProtobuf pb) (table_laws : IsKhash khash)
    (u64 : (x : D) → floats.to_u64 x < 2 ^ 64) where
  -- What a client reads from an answer: "No Results" where there is no pair, and else a list that
  -- decodes, in whatever buffer.
  abbrev pub Reads : List (Market D) → Answer → Type 0
  Reads [] no_results = Unit
  Reads (m ∷ ms) (sends out) =
      (behind : Bytes)
      → market_list_protobuf_decode floats pb (out ++ behind) (length out)
        ≡ ok (some (map (kept floats) (m ∷ ms)))
  Reads _ _ = ⊥

  result-Reads :
      (m : Market D) (ms : List (Market D)) (out : Bytes)
      → ((behind : Bytes)
          → market_list_protobuf_decode floats pb (out ++ behind) (length out)
            ≡ ok (some (map (kept floats) (m ∷ ms))))
      → Reads (m ∷ ms) (result_answer floats pb khash (some out))
  result-Reads m ms [] e =
      absurd (differ (sym (market_list_protobuf_decode-nothing floats pb) ∙ e []))
    where
      differ : {x : Market D} {xs : List (Market D)} → Outcome.ok (some []) ≢ ok (some (x ∷ xs))
      differ e = cc e
  result-Reads m ms (c ∷ out) e = e

  encoded-Reads :
      (ms : List (Market D))
      → AllNamed ms
      → (result : Option Bytes) × (encoded floats pb khash ms ≡ ok result)
        × Reads ms (result_answer floats pb khash result)
  encoded-Reads [] named = (none, unfold encoded in refl, tt)
  encoded-Reads (m ∷ ms) named =
      let (size, out, es, ee, le, ed) =
        market_list_protobuf_decode-behind floats pb laws u64 (m ∷ ms) named in
      (some out, unfold encoded in rw (es, ee), result-Reads m ms out ed)

  connect-answer :
      (vs : List (Vendor D)) (reads : List (Option Bytes)) (c : ℕ) (request : Bytes)
      (pairs : List (Market D)) (result : Option Bytes)
      → read_request reads [] ≡ ok (c ∷ request)
      → is_prefix (codes "EXIT") (c ∷ request) ≡ false
      → is_prefix (codes "trading_pairs") (c ∷ request) ≡ true
      → vendor_get_all_trading_pairs floats khash vs ≡ ok pairs
      → encoded floats pb khash pairs ≡ ok result
      → do_connect floats pb khash vs reads ≡ ok (result_answer floats pb khash result)
  unfolding do_connect handle run_command get_command get_trading_pairs
  connect-answer vs reads c request pairs result er no_exit asks ep ee =
      rw (er, no_exit, asks, ep, ee)

  no_exit :
      (c : ℕ) (request : Bytes)
      → is_prefix (codes "trading_pairs") (c ∷ request) ≡ true
      → is_prefix (codes "EXIT") (c ∷ request) ≡ false
  unfolding is_prefix
  no_exit c request asks = ground (arith, asks)

  -- Where every vendor is initialized, every market has both names and no base name has '~', a
  -- connection that asks for "trading_pairs" is answered: with "No Results" if there is no pair, and
  -- only then, and else with a list that decodes to the pairs of the vendors, whatever stands behind it
  -- in the buffer, each once and nothing else, with the fee of the first market of the pair, cut to
  -- thousandths. The hash table and the protobuf library keep their contracts.
  pub do_connect-trading_pairs :
      (vs : List (Vendor D)) (ready : AllReady floats vs) (reads : List (Option Bytes)) (c : ℕ)
      (request : Bytes)
      → PlainNames floats vs ready
      → read_request reads [] ≡ ok (c ∷ request)
      → is_prefix (codes "trading_pairs") (c ∷ request) ≡ true
      → (answer : Answer) × (do_connect floats pb khash vs reads ≡ ok answer)
        × ((pairs : List (Market D)) × ListsPairs floats vs ready pairs × Reads pairs answer)
  do_connect-trading_pairs vs ready reads c request plain er asks =
      let (pairs, ep, listed) =
        vendor_get_all_trading_pairs-firsts floats khash table_laws vs ready plain in
      let (result, ee, reads_back) = encoded-Reads pairs listed.named in
      (
        result_answer floats pb khash result,
        connect-answer vs reads c request pairs result er (no_exit c request asks) asks ep ee,
        (pairs, listed, reads_back),
      )
