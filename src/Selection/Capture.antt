-- ===== src/Selection/Capture.antt =====
-- src/server/wd_selection_capture.c: the buffer that collects a clipboard text from its source.
-- `data` is the list of the `size` bytes written; the terminator behind them, which nothing reads,
-- is left out. Whether an allocation succeeds is an argument.
pub mod Total
use waydisplay.Prelude.{
  ltb, leb, ◌/=◌, if◌then◌else◌, length, take, u32_max, u32, sub32, ℕ, zero, suc, ◌+◌, ◌*◌, ◌/◌,
  Bool, true, false, ◌||◌, Option, none, some, List, [], ◌++◌,
}
use waydisplay.Selection.Utf8.{normalize_size}

-- struct wd_selection_capture_buffer
pub record CaptureBuffer : Type 0 where
  pub data_bytes : List ℕ
  pub size : ℕ
  pub capacity : ℕ
  pub failed : Bool

-- WD_SELECTION_CAPTURE_RAW_MAX_BYTES, WD_SELECTION_CAPTURE_INITIAL_BYTES and
-- WD_SELECTION_CAPTURE_GROWTH_MULTIPLIER
abbrev pub raw_max_bytes : ℕ
raw_max_bytes = 1048577

abbrev pub initial_bytes : ℕ
initial_bytes = 65536

abbrev pub growth_multiplier : ℕ
growth_multiplier = 2

-- wd_selection_capture_buffer_init
pub capture_init : CaptureBuffer
capture_init = record { data_bytes = []; size = 0; capacity = 0; failed = false }

-- wd_selection_capture_buffer_destroy
pub capture_destroy : CaptureBuffer → CaptureBuffer
unfolding capture_init
capture_destroy b = capture_init

-- The loop of reserve_capture_bytes on fuel.
pub grow : ℕ → ℕ → ℕ → ℕ
grow zero capacity required = capacity
grow (suc fuel) capacity required = elim (ltb capacity required) [
  | false ↦ capacity
  | true ↦ elim (ltb (raw_max_bytes / growth_multiplier) capacity) [
    | true ↦ raw_max_bytes
    | false ↦ grow fuel (u32 (capacity * growth_multiplier)) required
  ]
]

-- reserve_capture_bytes: the new capacity, or `none` if the allocation fails. The capacity at
-- least doubles in a round, so `required` rounds are enough.
pub reserve_capture_bytes : CaptureBuffer → ℕ → Bool → Option ℕ
reserve_capture_bytes b required allocates =
    if leb required b.capacity
    then some b.capacity
    else if allocates
    then some (grow required (if b.capacity /= 0 then b.capacity else initial_bytes) required)
    else none

-- wd_selection_capture_buffer_append
pub capture_append : CaptureBuffer → List ℕ → Bool → CaptureBuffer × Bool
capture_append b chunk allocates =
    let size = length chunk in
    let required = u32 (b.size + size) in
    if b.failed
    then (b, false)
    else if ltb u32_max size || ltb (sub32 raw_max_bytes b.size) size
    then (record b { failed = true }, false)
    else elim (reserve_capture_bytes b required allocates) [
      | none ↦ (record b { failed = true }, false)
      | some capacity ↦ (
        record {
          data_bytes = b.data_bytes ++ chunk;
          size = required;
          capacity = capacity;
          failed = false;
        },
        true,
      )
    ]

-- wd_selection_capture_buffer_finish
pub capture_finish : CaptureBuffer → Bool → CaptureBuffer × Option (List ℕ)
capture_finish b allocates = if b.failed then (b, none) else elim (normalize_size b.data_bytes) [
  | none ↦ (record b { failed = true }, none)
  | some n ↦
      (if allocates then (b, some (take n b.data_bytes)) else (record b { failed = true }, none))
]
