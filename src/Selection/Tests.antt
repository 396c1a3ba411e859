-- ===== src/Selection/Tests.antt =====
-- The theorems at concrete inputs: the text "h", e acute, for the session 1 and the token 9.
use waydisplay.Prelude.{
  ltb, ◌==◌, if◌then◌else◌, ltb→lt, and_true, length, take, All, IsU8, ℕ, ◌≤◌, ◌<◌, ◌≡◌, refl, ◌↔◌,
  ◌⊎◌, Bool, true, ◌&&◌, none, some, List, [], ◌∷◌, arith,
}
use waydisplay.Selection.Utf8.{
  is_continuation, accept, valid_from, text_is_valid, max_text_bytes, normalize_size,
}
use waydisplay.Selection.Utf8.Scalars.{encode_all, text_is_valid-iff-encoded, IsScalar}
use waydisplay.Selection.Utf8.Trailing.{normalize_size_exact, IsTrimmed}
use waydisplay.Selection.Wire.{
  le_bytes, header_bytes, mime_is_valid, payload_size_is_valid, payload_decode, payload_encode,
}
use waydisplay.Selection.Wire.RoundTrip.{decode-encode, encode-decode}
use waydisplay.Selection.Capture.{raw_max_bytes, capture_init, capture_finish, CaptureBuffer}
use waydisplay.Selection.Capture.Total.{capture_all, concat, capture_total}
use waydisplay.Selection.Delivery.{pending_text}
use waydisplay.Selection.Delivery.Latest.{
  after, latest, wanted, pending_latest, Call, asked, queued, offer,
}

abbrev sample_text : List ℕ
sample_text = 0x68 ∷ 0xc3 ∷ 0xa9 ∷ []

text_is_valid-iff-encoded_example :
    (text_is_valid sample_text ≡ true)
    ↔ ((cs : List ℕ) × All IsScalar cs × (sample_text ≡ encode_all cs))
text_is_valid-iff-encoded_example =
    text_is_valid-iff-encoded sample_text (omega arith, (omega arith, (omega arith, tt)))

abbrev padded : List ℕ
padded = 0x68 ∷ 0xc3 ∷ 0xa9 ∷ 0 ∷ 0 ∷ []

normalize_size_exact_test : (normalize_size padded ≡ some 3) ↔ (
    IsTrimmed padded (length padded) 3
    × (3 ≤ max_text_bytes)
    × (text_is_valid (take 3 padded) ≡ true))
normalize_size_exact_test = normalize_size_exact padded 3

abbrev sample_payload : List ℕ
sample_payload = 1 ∷ 9 ∷ 0 ∷ 0 ∷ 0 ∷ 0 ∷ 0 ∷ 0 ∷ 0 ∷ 1 ∷ 0 ∷ 3 ∷ 0 ∷ 0 ∷ 0 ∷ 0x68 ∷ 0xc3 ∷ 0xa9 ∷ []

sample_encoded : payload_encode 1 9 1 sample_text 100 ≡ some sample_payload
unfolding payload_encode payload_size_is_valid mime_is_valid text_is_valid valid_from accept
    is_continuation header_bytes le_bytes
sample_encoded = refl

decode-encode_example :
    payload_decode sample_payload 1 8
    ≡ (if 1 == 1 && 8 == 9 then some (record { mime_type = 1; text = sample_text }) else none)
decode-encode_example =
    decode-encode 1 9 1 sample_text 100 1 8 (omega arith) (omega arith) sample_encoded

sample_decoded :
    payload_decode sample_payload 1 9 ≡ some (record { mime_type = 1; text = sample_text })
sample_decoded = decode-encode 1 9 1 sample_text 100 1 9 (omega arith) (omega arith) sample_encoded

bytes_test : List ℕ → Bool
bytes_test [] = true
bytes_test (b ∷ bs) = ltb b 0x100 && bytes_test bs

All-bytes : (bs : List ℕ) → bytes_test bs ≡ true → All IsU8 bs
unfolding bytes_test
All-bytes [] h = tt
All-bytes (b ∷ bs) h = let (a, c) = and_true _ _ h in (ltb→lt _ _ a, All-bytes bs c)

sample_bytes : All IsU8 sample_payload
unfolding bytes_test
sample_bytes = All-bytes sample_payload refl

encode-decode_example :
    payload_encode 1 9 1 sample_text (length sample_payload) ≡ some sample_payload
encode-decode_example = encode-decode sample_payload 1 9 sample_bytes sample_decoded

abbrev chunks : List (List ℕ)
chunks = (0x68 ∷ 0xc3 ∷ []) ∷ (0xa9 ∷ 0 ∷ []) ∷ []

abbrev captured : CaptureBuffer
captured = capture_all capture_init chunks

capture_total_example :
    ((length (concat chunks) ≤ raw_max_bytes)
      × (captured.data_bytes ≡ concat chunks)
      × ((capture_finish captured true).1 ≡ elim (normalize_size (concat chunks)) [
        | none ↦ none
        | some n ↦ some (take n (concat chunks))
      ]))
    ⊎ ((raw_max_bytes < length (concat chunks)) × ((capture_finish captured true).1 ≡ none))
capture_total_example = capture_total chunks

abbrev calls : List Call
calls = asked ∷ queued ∷ offer (some sample_text) 3 ∷ []

pending_latest_test : pending_text (after calls) ≡ (if wanted calls then latest calls else none)
pending_latest_test = pending_latest calls
