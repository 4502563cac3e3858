-- ===== src/Server/Reads.antt =====
-- The loop that reads a request.
use ken_code_de_bridge.Base.{
  Bool-cases, Bytes, List, Option, [], ap, append_assoc, arith, false, inl, inr, length,
  length-append, ltb, ok, some, sym, ◌++◌, ◌+◌, ◌<◌, ◌==◌, ◌∙◌, ◌∷◌, ◌≡◌, ◌≤◌,
}
use ken_code_de_bridge.Server.{buffer_append, read_request}

-- Reads that fill the array.
abbrev pub AllFull : List Bytes → Type 0
AllFull [] = Unit
AllFull (c ∷ chunks) = (length c ≡ 255) × AllFull chunks

abbrev pub joined : List Bytes → Bytes
joined [] = []
joined (c ∷ chunks) = c ++ joined chunks

abbrev pub read_of : List Bytes → List (Option Bytes) → List (Option Bytes)
read_of [] later = later
read_of (c ∷ chunks) later = some c ∷ read_of chunks later

read_last :
    (buffer last : Bytes) (later : List (Option Bytes))
    → length last < 255
    → read_request (some last ∷ later) buffer ≡ ok (buffer ++ last)
unfolding read_request buffer_append
read_last buffer last later short = elim (Bool-cases (ltb 65535 (length (buffer ++ last)))) [
  | inl e ↦ rw e
  | inr e ↦ let test : (length last == 255) ≡ false = ground arith in rw (e, test)
]

read_round :
    (buffer c : Bytes) (reads : List (Option Bytes))
    → length c ≡ 255
    → length (buffer ++ c) ≤ 65535
    → read_request (some c ∷ reads) buffer ≡ read_request reads (buffer ++ c)
unfolding read_request buffer_append
read_round buffer c reads full h =
    let test : ltb 65535 (length (buffer ++ c)) ≡ false = ground arith in rw (test, full)

-- Reads that fill the array, of at most 65535 bytes in all, and then one that does not, are read as
-- their bytes in order; what comes behind them is not read.
pub read_request-joined :
    (chunks : List Bytes) (last : Bytes) (later : List (Option Bytes)) (buffer : Bytes)
    → AllFull chunks
    → length last < 255
    → length buffer + length (joined chunks) ≤ 65535
    → read_request (read_of chunks (some last ∷ later)) buffer
      ≡ ok (buffer ++ (joined chunks ++ last))
read_request-joined [] last later buffer full short h = read_last buffer last later short
read_request-joined (c ∷ chunks) last later buffer (e, full) short h =
    let sizes = length-append c (joined chunks) in
    let size = length-append buffer c in
    read_round buffer c _ e (omega (arith, sizes, size))
    ∙ read_request-joined chunks last later (buffer ++ c) full short (omega (arith, sizes, size))
    ∙ ap ok (
        append_assoc buffer c (joined chunks ++ last)
        ∙ ap (λ x. buffer ++ x) (sym (append_assoc c (joined chunks) last)))
