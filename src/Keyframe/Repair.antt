-- ===== src/Keyframe/Repair.antt =====
-- The server's repair of an H.265 access unit whose first start code the driver has escaped,
-- src/server/wd_hevc_annexb.c.
pub mod Prefix
use waydisplay.Prelude.{
  ltb, leb, ◌==◌, ◌/=◌, if◌then◌else◌, length, get_or, drop, ℕ, ◌-◌, ◌/◌, ◌%◌, Bool, true, false,
  ◌&&◌, ◌||◌, List, [], ◌∷◌,
}

-- wd_hevc_nal_header, on the bytes from a position on.
unfoldable pub nal_header : List ℕ → Bool
nal_header bytes =
    let first = get_or bytes 0 0 in
    let second = get_or bytes 1 0 in
    if ltb (length bytes) 2
      || (first % 2 /= 0 || (first / 0x80 /= 0 || (second / 8 /= 0 || second % 8 == 0)))
    then false
    else leb (first / 2 % 64) 40

-- The two forms that wd_escaped_prefix_length looks for.
abbrev pub is_escaped_four : List ℕ → Bool
is_escaped_four bytes =
    leb 7 (length bytes)
    && (get_or bytes 0 0 == 0
        && (get_or bytes 1 0 == 0
            && (get_or bytes 2 0 == 3
                && (get_or bytes 3 0 == 0
                    && (get_or bytes 4 0 == 1 && nal_header (drop 5 bytes))))))

abbrev pub is_escaped_three : List ℕ → Bool
is_escaped_three bytes =
    leb 6 (length bytes)
    && (get_or bytes 0 0 == 0
        && (get_or bytes 1 0 == 0
            && (get_or bytes 2 0 == 3 && (get_or bytes 3 0 == 1 && nal_header (drop 4 bytes)))))

-- wd_escaped_prefix_length
unfoldable pub escaped_prefix_length : List ℕ → ℕ
escaped_prefix_length bytes =
    if is_escaped_four bytes then 5 else if is_escaped_three bytes then 4 else 0

-- The loop that looks for another candidate.
unfoldable pub has_candidate : List ℕ → Bool
unfolding escaped_prefix_length
has_candidate [] = false
has_candidate (b ∷ bytes) =
    let later = has_candidate bytes in
    if escaped_prefix_length (b ∷ bytes) /= 0 then true else later

-- What wd_hevc_annexb_repair_vaapi returns: -1, 0, or 1 with the new contents.
pub data RepairResult : Type 0 where
  unrepairable : RepairResult
  intact : RepairResult
  rewritten : List ℕ → RepairResult

abbrev pub has_start_code : List ℕ → Bool
has_start_code bytes =
    get_or bytes 0 0 == 0
    && (get_or bytes 1 0 == 0
        && (get_or bytes 2 0 == 1 || (get_or bytes 2 0 == 0 && get_or bytes 3 0 == 1)))

-- wd_hevc_annexb_repair_vaapi
unfoldable pub annexb_repair : List ℕ → RepairResult
unfolding has_candidate escaped_prefix_length
annexb_repair bytes =
    let escaped = escaped_prefix_length bytes in
    let rest = drop escaped bytes in
    if ltb (length bytes) 6
    then unrepairable
    else if has_start_code bytes
    then intact
    else if escaped == 0 || has_candidate rest
    then unrepairable
    else rewritten (if escaped - 1 == 4 then 0 ∷ 0 ∷ 0 ∷ 1 ∷ rest else 0 ∷ 0 ∷ 1 ∷ rest)
