-- ===== src/Selection/Wire/RoundTrip.antt =====
-- Encoding and decoding a selection payload.
use mathlib.Core.List.{append_assoc}
use waydisplay.Prelude.{
  ltb, ◌==◌, ◌/=◌, if◌then◌else◌, length, take, drop, All, length-take_of_le, take-length, All-drop,
  All-take, take-append-drop, length-drop, take-drop-drop, IsU8, IsU16, IsU32, IsU64, ℕ, zero, suc,
  ◌+◌, ◌*◌, ◌/◌, ◌%◌, ◌≤◌, ◌<◌, ◌≡◌, refl, sym, ap, ◌∙◌, ◌≢◌, ◌↔◌, ◌⊎◌, true, not, ◌&&◌, ◌||◌,
  Option, none, some, List, [], ◌∷◌, ◌++◌, arith,
}
use waydisplay.Selection.Utf8.{text_is_valid, max_text_bytes}
use waydisplay.Selection.Wire.{
  le_bytes, from_le, header_size, header_bytes, read_header, mime_is_valid, payload_decode,
  payload_encode, SelectionHeader, TextView,
}

-- 256 ^ n
abbrev limit : ℕ → ℕ
limit zero = 1
limit (suc n) = 0x100 * limit n

from_le-le_bytes : (n v : ℕ) → v < limit n → from_le (le_bytes n v) ≡ v
unfolding le_bytes from_le
from_le-le_bytes zero v h = omega arith
from_le-le_bytes (suc n) v h = let ih = from_le-le_bytes n (v / 0x100) (omega arith) in omega arith

-- The fields of a header fit its members.
record Fits (h : SelectionHeader) : Type 0 where
  session : IsU8 h.session_id
  token : IsU64 h.connection_token
  mime : IsU16 h.mime_type
  size : IsU32 h.data_size

read-header_bytes :
    (h : SelectionHeader) (text : List ℕ)
    → Fits h
    → (read_header (header_bytes h ++ text) ≡ h)
      × (drop header_size (header_bytes h ++ text) ≡ text)
      × (length (header_bytes h ++ text) ≡ header_size + length text)
unfolding read_header header_bytes le_bytes from_le
read-header_bytes h text f = (ground (arith, a, b, c, d), refl, omega arith)
  where
    a : from_le (le_bytes 1 h.session_id) ≡ h.session_id
    a = from_le-le_bytes 1 h.session_id (omega (arith, f.session))

    b : from_le (le_bytes 8 h.connection_token) ≡ h.connection_token
    b = from_le-le_bytes 8 h.connection_token (omega (arith, f.token))

    c : from_le (le_bytes 2 h.mime_type) ≡ h.mime_type
    c = from_le-le_bytes 2 h.mime_type (omega (arith, f.mime))

    d : from_le (le_bytes 4 h.data_size) ≡ h.data_size
    d = from_le-le_bytes 4 h.data_size (omega (arith, f.size))

-- What an encoder accepts, and what it then writes.
record Encodable (session_id connection_token mime_type : ℕ) (text : List ℕ) (cap : ℕ)
    : Type 0 where
  session : session_id ≢ 0
  token : connection_token ≢ 0
  mime : (mime_type ≡ 1) ⊎ (mime_type ≡ 2)
  short : length text ≤ max_text_bytes
  valid : text_is_valid text ≡ true
  room : header_size + length text ≤ cap

abbrev header_of : ℕ → ℕ → ℕ → List ℕ → SelectionHeader
header_of sid tok mime text = record {
  session_id = sid;
  connection_token = tok;
  mime_type = mime;
  data_size = length text;
}

encode_exact :
    (sid tok mime : ℕ) (text : List ℕ) (cap : ℕ) (p : List ℕ)
    → (payload_encode sid tok mime text cap ≡ some p)
      ↔ (Encodable sid tok mime text cap × (p ≡ header_bytes (header_of sid tok mime text) ++ text))
unfolding payload_encode
encode_exact sid tok mime text cap p = (ground arith, ground arith)

-- What a decoder accepts of a payload with a given header and text.
decode_value :
    (payload : List ℕ) (sid tok : ℕ) (h : SelectionHeader) (text : List ℕ)
    → read_header payload ≡ h
    → drop header_size payload ≡ text
    → length payload ≡ header_size + length text
    → h.data_size ≡ length text
    → payload_decode payload sid tok ≡ (
        if sid == 0 || tok == 0
        then none
        else if h.session_id /= sid
            || (h.connection_token /= tok || not (mime_is_valid h.mime_type))
        then none
        else if ltb max_text_bytes (length text) || not (text_is_valid text)
        then none
        else some (record { mime_type = h.mime_type; text = text }))
unfolding payload_decode
decode_value payload sid tok h text r d l s = rw (r, d, l, s, take-length text) (ground arith)

Encodable-Fits :
    (sid tok mime : ℕ) (text : List ℕ) (cap : ℕ)
    → IsU8 sid
    → IsU64 tok
    → Encodable sid tok mime text cap
    → Fits (header_of sid tok mime text)
Encodable-Fits sid tok mime text cap ws wt enc = ground (arith, enc)

-- The rest of the decoder, as `decode_value` leaves it.
abbrev decided : ℕ → ℕ → SelectionHeader → List ℕ → Option TextView
decided sid tok h text =
    if sid == 0 || tok == 0
    then none
    else if h.session_id /= sid || (h.connection_token /= tok || not (mime_is_valid h.mime_type))
    then none
    else if ltb max_text_bytes (length text) || not (text_is_valid text)
    then none
    else some (record { mime_type = h.mime_type; text = text })

any_identity :
    (sid tok mime : ℕ) (text : List ℕ) (cap sid' tok' : ℕ)
    → Encodable sid tok mime text cap
    → decided sid' tok' (header_of sid tok mime text) text ≡ (
        if sid' == sid && tok' == tok
        then some (record { mime_type = mime; text = text })
        else none)
unfolding mime_is_valid
any_identity sid tok mime text cap sid' tok' enc = ground (arith, enc)

-- What was encoded for a session and a token is decoded under them to the same type and text, and
-- refused under any other session or token.
pub decode-encode :
    (sid tok mime : ℕ) (text : List ℕ) (cap sid' tok' : ℕ) {p : List ℕ}
    → IsU8 sid
    → IsU64 tok
    → payload_encode sid tok mime text cap ≡ some p
    → payload_decode p sid' tok' ≡ (
        if sid' == sid && tok' == tok
        then some (record { mime_type = mime; text = text })
        else none)
decode-encode sid tok mime text cap sid' tok' {p} ws wt e =
    let (enc, is) = (encode_exact sid tok mime text cap p).0 e in
    let h = header_of sid tok mime text in
    let (r, d, l) = read-header_bytes h text (Encodable-Fits sid tok mime text cap ws wt enc) in
    rw is (
      decode_value (header_bytes h ++ text) sid' tok' h text r d l refl
      ∙ any_identity sid tok mime text cap sid' tok' enc)

le_bytes-from_le :
    (bs : List ℕ) (n : ℕ) → length bs ≡ n → All IsU8 bs → le_bytes n (from_le bs) ≡ bs
unfolding le_bytes from_le
le_bytes-from_le [] zero e h = refl
le_bytes-from_le [] (suc n) e h = absurd (omega arith)
le_bytes-from_le (b ∷ bs) zero e h = absurd (omega arith)
le_bytes-from_le (b ∷ bs) (suc n) e (w, ws) =
    let low : (b + 0x100 * from_le bs) % 0x100 ≡ b = omega arith in
    let high : (b + 0x100 * from_le bs) / 0x100 ≡ from_le bs = omega arith in
    rw (low, high) (ap (λ l. b ∷ l) (le_bytes-from_le bs n (omega arith) ws))

-- A field of `m` bytes at offset `n`.
field_bytes :
    (n m : ℕ) (p : List ℕ)
    → n + m ≤ length p
    → All IsU8 p
    → le_bytes m (from_le (take m (drop n p))) ≡ take m (drop n p)
field_bytes n m p room w =
    le_bytes-from_le (take m (drop n p)) m
      (length-take_of_le m (drop n p) (omega (arith, length-drop n p)))
      (All-take IsU8 m (drop n p) (All-drop IsU8 n p w))

header_bytes-read :
    (p : List ℕ)
    → header_size ≤ length p
    → All IsU8 p
    → header_bytes (read_header p) ++ drop header_size p ≡ p
unfolding header_bytes read_header
header_bytes-read p room w =
    simp
      (
        field_bytes 0 1 p (omega arith) w,
        field_bytes 1 8 p (omega arith) w,
        field_bytes 9 2 p (omega arith) w,
        field_bytes 11 4 p (omega arith) w,
        append_assoc,
      )
      (rw (take-drop-drop 11 4 p, take-drop-drop 9 2 p, take-drop-drop 1 8 p)
        (take-append-drop 1 p))

abbrev taken : List ℕ → List ℕ
taken p = take (read_header p).data_size (drop header_size p)

decode_raw :
    (p : List ℕ) (sid tok : ℕ) {v : TextView}
    → payload_decode p sid tok ≡ some v
    → (length p ≡ header_size + (read_header p).data_size)
      × ((read_header p).session_id ≡ sid)
      × ((read_header p).connection_token ≡ tok)
      × (sid ≢ 0)
      × (tok ≢ 0)
      × (((read_header p).mime_type ≡ 1) ⊎ ((read_header p).mime_type ≡ 2))
      × ((read_header p).data_size ≤ max_text_bytes)
      × (text_is_valid (taken p) ≡ true)
      × (v ≡ record { mime_type = (read_header p).mime_type; text = taken p })
unfolding payload_decode
decode_raw p sid tok e = ground arith

header_eq :
    (h : SelectionHeader) {sid tok size : ℕ}
    → h.session_id ≡ sid
    → h.connection_token ≡ tok
    → h.data_size ≡ size
    → h ≡ record {
      session_id = sid;
      connection_token = tok;
      mime_type = h.mime_type;
      data_size = size;
    }
header_eq h a b c = λ i. record {
  session_id = a i;
  connection_token = b i;
  mime_type = h.mime_type;
  data_size = c i;
}

-- What was decoded from a payload encodes, for the same identity, to that very payload: a payload
-- that the decoder accepts has one form, and nothing of it is ignored.
pub encode-decode :
    (p : List ℕ) (sid tok : ℕ) {v : TextView}
    → All IsU8 p
    → payload_decode p sid tok ≡ some v
    → payload_encode sid tok v.mime_type v.text (length p) ≡ some p
encode-decode p sid tok {v} w e =
    let (size, s, t, sz, tz, m, short, valid, is) = decode_raw p sid tok e in
    let whole : taken p ≡ drop header_size p = take_all p size in
    rw (is, whole)
      ((encode_exact sid tok (read_header p).mime_type (drop header_size p) (length p) p).1 (
        record {
          session = sz;
          token = tz;
          mime = m;
          short = omega (arith, length-drop header_size p);
          valid = rw whole at valid;
          room = omega (arith, length-drop header_size p);
        },
        sym (header_bytes-read p (omega arith) w)
            ∙ ap (λ h. header_bytes h ++ drop header_size p)
                (header_eq (read_header p) s t (omega (arith, length-drop header_size p))),
      ))
  where
    take_all :
        (p : List ℕ)
        → length p ≡ header_size + (read_header p).data_size
        → taken p ≡ drop header_size p
    take_all p size =
        let e : (read_header p).data_size ≡ length (drop header_size p) =
          omega (arith, length-drop header_size p) in
        rw e (take-length (drop header_size p))
