-- ===== src/Selection/Wire.antt =====
-- The selection payload of src/common/wd_selection.c and its header in
-- include/waydisplay/wd_protocol.h: a packed structure, which a little-endian host copies to and
-- from the wire byte by byte.
pub mod RoundTrip
use waydisplay.Prelude.{
  ltb, leb, ◌==◌, ◌/=◌, if◌then◌else◌, length, take, drop, u32_max, size_max, u64, ℕ, zero, suc,
  ◌+◌, ◌-◌, ◌*◌, ◌/◌, ◌%◌, Bool, false, not, ◌&&◌, ◌||◌, Option, none, some, List, [], ◌∷◌, ◌++◌,
}
use waydisplay.Selection.Utf8.{text_is_valid, max_text_bytes}

-- The bytes of an unsigned integer in memory, the lowest first.
unfoldable pub le_bytes : ℕ → ℕ → List ℕ
le_bytes zero v = []
le_bytes (suc n) v = (v % 0x100) ∷ le_bytes n (v / 0x100)

unfoldable pub from_le : List ℕ → ℕ
from_le [] = 0
from_le (b ∷ bs) = b + 0x100 * from_le bs

-- struct wd_selection_payload_header
pub record SelectionHeader : Type 0 where
  pub session_id : ℕ
  pub connection_token : ℕ
  pub mime_type : ℕ
  pub data_size : ℕ

-- sizeof(struct wd_selection_payload_header)
abbrev pub header_size : ℕ
header_size = 15

-- `memcpy` of the header to the wire, and back.
unfoldable pub header_bytes : SelectionHeader → List ℕ
header_bytes h =
    le_bytes 1 h.session_id
    ++ (le_bytes 8 h.connection_token ++ (le_bytes 2 h.mime_type ++ le_bytes 4 h.data_size))

unfoldable pub read_header : List ℕ → SelectionHeader
read_header payload = record {
  session_id = from_le (take 1 payload);
  connection_token = from_le (take 8 (drop 1 payload));
  mime_type = from_le (take 2 (drop 9 payload));
  data_size = from_le (take 4 (drop 11 payload));
}

-- wd_selection_mime_is_valid
unfoldable pub mime_is_valid : ℕ → Bool
mime_is_valid mime_type = mime_type == 1 || mime_type == 2

-- wd_counted_payload_size_is_valid
unfoldable pub counted_payload_size_is_valid : ℕ → ℕ → ℕ → ℕ → Bool
counted_payload_size_is_valid payload_size header count entry_size =
    if entry_size /= 0 && ltb ((size_max - header) / entry_size) count
    then false
    else payload_size == u64 (header + u64 (count * entry_size))

-- wd_selection_payload_size_is_valid
unfoldable pub payload_size_is_valid : SelectionHeader → ℕ → Bool
unfolding counted_payload_size_is_valid
payload_size_is_valid h payload_size =
    leb h.data_size max_text_bytes
    && counted_payload_size_is_valid payload_size header_size h.data_size 1

-- struct wd_selection_text_view, with the bytes that its pointer and size select.
pub record TextView : Type 0 where
  pub mime_type : ℕ
  pub text : List ℕ

-- wd_selection_payload_decode; `payload_size` is the length of the payload.
unfoldable pub payload_decode : List ℕ → ℕ → ℕ → Option TextView
unfolding mime_is_valid payload_size_is_valid
payload_decode payload expected_session_id expected_connection_token =
    let header = read_header payload in
    let text = take header.data_size (drop header_size payload) in
    if expected_session_id == 0
      || (expected_connection_token == 0 || ltb (length payload) header_size)
    then none
    else if header.session_id /= expected_session_id
        || (header.connection_token /= expected_connection_token
            || (not (mime_is_valid header.mime_type)
                || not (payload_size_is_valid header (length payload))))
    then none
    else if not (text_is_valid text)
    then none
    else some (record { mime_type = header.mime_type; text = text })

-- wd_selection_payload_encode; the result is what it writes, whose length is `*payload_size`.
unfoldable pub payload_encode : ℕ → ℕ → ℕ → List ℕ → ℕ → Option (List ℕ)
unfolding mime_is_valid
payload_encode session_id connection_token mime_type text payload_capacity =
    let needed = u64 (header_size + length text) in
    let header : SelectionHeader = record {
      session_id = session_id;
      connection_token = connection_token;
      mime_type = mime_type;
      data_size = length text;
    } in
    if session_id == 0
      || (connection_token == 0
          || (not (mime_is_valid mime_type)
              || (ltb max_text_bytes (length text) || not (text_is_valid text))))
    then none
    else if ltb payload_capacity needed || ltb u32_max needed
    then none
    else some (header_bytes header ++ text)
