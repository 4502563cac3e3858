-- ===== src/MarketCodec/Tests.antt =====
-- Runs of book/market.c over a small protobuf library, and the theorems there.
use mathlib.Core.Path.{refl, ◌≡◌}
use ken_code_de_bridge.Base.{Bytes, [], codes, length, map, ok, some, true, ℕ, ◌∷◌, ◌≤◌}
use ken_code_de_bridge.Book.{Market}
use ken_code_de_bridge.Fixtures.{small_micro, small_u64}
use ken_code_de_bridge.MarketCodec.{
  market_get, market_list_protobuf_decode, market_list_protobuf_encode,
  market_list_protobuf_encode_size,
}
use ken_code_de_bridge.MarketCodec.Fits.{
  IsMessages, IsNamed, market_list_protobuf_encode-IsMessages,
}
use ken_code_de_bridge.MarketCodec.Search.{FoundMarket, market_get-FoundMarket}
use ken_code_de_bridge.MarketCodec.RoundTrip.Lists.{kept, market_list_protobuf_decode-encode}
use ken_code_de_bridge.MarketCodec.Plain.{plain, plain-IsProtobuf}

abbrev ltc : Market ℕ
ltc = record {
  market_name = some (codes "BTC-LTC");
  market_currency = some (codes "LTC");
  base_currency = some (codes "BTC");
  min_trade_size = 10_000;
  fee = 700_000;
}

abbrev doge : Market ℕ
doge = record ltc { market_currency = some (codes "DOGE") }

abbrev ltc_IsNamed : IsNamed ltc
ltc_IsNamed = record {
  base = codes "BTC";
  has_base = refl;
  quoted = codes "LTC";
  has_quoted = refl;
}

abbrev doge_IsNamed : IsNamed doge
doge_IsNamed = record {
  base = codes "BTC";
  has_base = refl;
  quoted = codes "DOGE";
  has_quoted = refl;
}

market_list_protobuf_decode-encode_example :
    (size : ℕ) × (out : Bytes) × (market_list_protobuf_encode_size small_micro (ltc ∷ doge ∷ [])
      ≡ ok size)
    × (market_list_protobuf_encode small_micro plain (ltc ∷ doge ∷ []) size ≡ ok (true, out))
    × (length out ≤ size)
    × (market_list_protobuf_decode small_micro plain out (length out)
        ≡ ok (some (map (kept small_micro) (ltc ∷ doge ∷ []))))
market_list_protobuf_decode-encode_example =
    market_list_protobuf_decode-encode small_micro plain plain-IsProtobuf small_u64
      (ltc ∷ doge ∷ []) (ltc_IsNamed, (doge_IsNamed, tt))

-- The fee of 0.7 survives the cut to thousandths.
kept-ltc : (kept small_micro ltc).fee ≡ 700_000
kept-ltc = refl

market_list_protobuf_encode-IsMessages_example :
    (size : ℕ) × (out : Bytes) × (market_list_protobuf_encode_size small_micro (ltc ∷ []) ≡ ok size)
    × (market_list_protobuf_encode small_micro plain (ltc ∷ []) size ≡ ok (true, out))
    × (length out ≤ size)
    × IsMessages plain small_micro plain-IsProtobuf small_u64 (ltc ∷ []) (ltc_IsNamed, tt) out
market_list_protobuf_encode-IsMessages_example =
    market_list_protobuf_encode-IsMessages plain small_micro plain-IsProtobuf small_u64 (ltc ∷ [])
      (ltc_IsNamed, tt)

market_get-FoundMarket_example :
    FoundMarket
      (codes "BTC")
      (codes "DOGE")
      (ltc ∷ doge ∷ [])
      (market_get (ltc ∷ doge ∷ []) (codes "BTC") (codes "DOGE"))
market_get-FoundMarket_example =
    market_get-FoundMarket (codes "BTC") (codes "DOGE") (ltc ∷ doge ∷ [])
      (ltc_IsNamed, (doge_IsNamed, tt))

market_get-doge : market_get (ltc ∷ doge ∷ []) (codes "BTC") (codes "DOGE") ≡ ok (some doge)
unfolding market_get
market_get-doge = refl
