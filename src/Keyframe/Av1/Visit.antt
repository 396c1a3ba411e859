-- ===== src/Keyframe/Av1/Visit.antt =====
-- What an iteration of the loop on the OBUs makes of a position.
use waydisplay.Prelude.{
  ltb, leb, ◌==◌, ◌/=◌, ltb→le, Bool-cases, length, get_or, get_elem?-in_range, ℕ, ◌+◌, ◌-◌, ◌/◌,
  ◌%◌, ◌≤◌, ◌<◌, ◌≡◌, refl, ◌⊎◌, inl, inr, false, ◌||◌, Option, some, List, arith,
}
use waydisplay.Keyframe.{invalid_bitstream}
use waydisplay.Keyframe.Av1.{
  read_size, read_extension, read_payload, take_payload, place_behind, obu_type, scan_obu, SizeRead,
  bad_size, size_is, Found, Av1Place, rejected,
}
use waydisplay.Keyframe.Av1.Size.{Reads, IsSize-le, read_size-Reads}
use waydisplay.Keyframe.Av1.Obus.{HeaderEnds, PayloadIs, obu_step, Obu, ObuAt}

module _ (bytes : List ℕ) where
  take_payload_value :
      (type start payload : ℕ) (found : Found)
      → start + payload ≤ length bytes
      → take_payload bytes type start payload found
        ≡ some (
            obu_step
              (record { kind = type; payload_size = payload; first = get_or bytes start 0 })
              found)
  unfolding take_payload obu_step
  take_payload_value type start payload found le = elim (Bool-cases (payload == 0)) [
    | inl empty ↦ rw empty (ground arith)
    | inr some_bytes ↦
        rw (some_bytes, get_elem?-in_range bytes start 0 (ground (arith, some_bytes)))
          (ground arith)
  ]

  -- Reading the extension fails, or the header ends behind it.
  read_extension-cases :
      (pos : ℕ)
      → pos < length bytes
      → (read_extension bytes (length bytes) (get_or bytes pos 0) (pos + 1) ≡ some bad_size)
        ⊎ ((next : ℕ) × (read_extension bytes (length bytes) (get_or bytes pos 0) (pos + 1)
              ≡ some (size_is next 0))
            × HeaderEnds bytes pos next
            × (pos < next)
            × (next ≤ length bytes))
  unfolding read_extension
  read_extension-cases pos lt =
      let header = get_or bytes pos 0 in
      elim (Bool-cases (header / 4 % 2 == 0)) [
        | inl plain ↦
            inr
              (pos + 1, rw plain refl, inl (ground (arith, plain), refl), omega arith, omega arith)
        | inr extended ↦ elim (Bool-cases (leb (length bytes) (pos + 1))) [
          | inl over ↦ inl (rw (extended, over) refl)
          | inr room ↦
              let get = get_elem?-in_range bytes (pos + 1) 0 (ground (arith, room)) in
              elim (Bool-cases (get_or bytes (pos + 1) 0 % 8 /= 0)) [
                | inl reserved ↦ inl (rw (extended, room, get, reserved) refl)
                | inr good ↦ inr (
                  pos + 1 + 1,
                  rw (extended, room, get, good) refl,
                  inr (
                    λ z. ground (arith, extended, z),
                    ground (arith, room),
                    ground (arith, good),
                    omega arith,
                  ),
                  omega arith,
                  ground (arith, room),
                )
              ]
        ]
      ]

  fits_data :
      (start payload : ℕ)
      → start ≤ length bytes
      → payload ≤ length bytes - start
      → start + payload ≤ length bytes
  fits_data start payload le room = omega (arith, le, room)

  -- Reading the size fails, or the payload is known and fits the data.
  read_payload-cases :
      (header pos : ℕ)
      → pos ≤ length bytes
      → (read_payload bytes (length bytes) header pos ≡ some bad_size)
        ⊎ ((start payload : ℕ) × (read_payload bytes (length bytes) header pos
              ≡ some (size_is start payload))
            × PayloadIs bytes header pos start payload
            × (pos ≤ start)
            × (start + payload ≤ length bytes))
  unfolding read_payload
  read_payload-cases header pos le = elim (Bool-cases (header / 2 % 2 == 0)) [
    | inl to_end ↦ inr (
      pos,
      length bytes - pos,
      rw to_end refl,
      inl (ground (arith, to_end), refl, refl),
      omega arith,
      omega arith,
    )
    | inr sized ↦
        let (read, returns, reads) = read_size-Reads bytes 11 pos 0 0 (omega arith) (omega arith) in
        go read sized returns reads
  ]
    where
      go :
          (read : SizeRead)
          → (header / 2 % 2 == 0) ≡ false
          → read_size bytes (length bytes) 11 pos 0 0 ≡ some read
          → Reads bytes pos 0 0 read
          → (read_payload bytes (length bytes) header pos ≡ some bad_size)
            ⊎ ((start payload : ℕ) × (read_payload bytes (length bytes) header pos
                  ≡ some (size_is start payload))
                × PayloadIs bytes header pos start payload
                × (pos ≤ start)
                × (start + payload ≤ length bytes))
      go bad_size sized returns reads = inl (rw (sized, returns) refl)
      go (size_is start payload) sized returns (n, field, e, v) =
          elim (Bool-cases (ltb (length bytes - start) payload)) [
            | inl over ↦ inl (rw (sized, returns, over) refl)
            | inr room ↦ inr (
              start,
              payload,
              rw (sized, returns, room) refl,
              inr (λ z. ground (arith, sized, z), (n, field, e, omega (arith, v))),
              omega (arith, e),
              fits_data start payload (omega (arith, e, IsSize-le bytes pos n field))
                  (ltb→le (length bytes - start) payload room),
            )
          ]

  abbrev visit_obu : ℕ → Found → Option Av1Place
  visit_obu pos found = scan_obu bytes (length bytes) pos found

  -- The data is rejected at the position, or an OBU stands there.
  pub scan_obu-cases :
      (pos : ℕ) (found : Found)
      → pos < length bytes
      → (scan_obu bytes (length bytes) pos found ≡ some (rejected invalid_bitstream))
        ⊎ ((next : ℕ) × (o : Obu) × ObuAt bytes pos next o
            × (pos < next)
            × (scan_obu bytes (length bytes) pos found
                ≡ some (place_behind next (obu_step o found))))
  unfolding scan_obu
  scan_obu-cases pos found lt =
      let header = get_or bytes pos 0 in
      let get = get_elem?-in_range bytes pos 0 lt in
      elim (Bool-cases (header % 2 /= 0 || (header / 0x80 /= 0 || obu_type header == 0))) [
        | inl bad ↦ inl (rw (get, bad) refl)
        | inr good ↦ elim (read_extension-cases pos lt) [
          | inl fails ↦ inl (rw (get, good, fails) refl)
          | inr (after, extended, header_ends, later, in_data) ↦
              elim (read_payload-cases header after in_data) [
                | inl fails ↦ inl (rw (get, good, extended, fails) refl)
                | inr (start, payload, sized, payload_is, from, fits) ↦ inr (
                  start + payload,
                  record {
                    kind = obu_type header;
                    payload_size = payload;
                    first = get_or bytes start 0;
                  },
                  record {
                    in_data = lt;
                    forbidden_bits =
                        (ground (arith, good), ground (arith, good), λ z. ground (arith, good, z));
                    kind_is = refl;
                    behind_header = after;
                    header_ends = header_ends;
                    start = start;
                    payload_is = payload_is;
                    ends = refl;
                    fits = fits;
                    first_is = refl;
                  },
                  omega (arith, later, from),
                  rw
                      (
                        get,
                        good,
                        extended,
                        sized,
                        take_payload_value (obu_type header) start payload found fits,
                      )
                      refl,
                )
              ]
        ]
      ]
