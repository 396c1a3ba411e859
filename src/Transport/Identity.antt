-- ===== src/Transport/Identity.antt =====
-- The identity of a connection, src/server/wd_connection_identity.c: two numbers from a source of
-- random bytes that its callers pass in, as src/server/wd_connection_identity.h describes it.
pub mod Distinct
use waydisplay.Prelude.{
  ltb, ◌==◌, ◌/=◌, if◌then◌else◌, length, u8_max, ℕ, zero, suc, ◌+◌, ◌-◌, ◌||◌, Option, none, some,
  List, [], ◌++◌,
}
use waydisplay.Selection.Wire.{from_le}

abbrev pub random_attempts : ℕ
random_attempts = 8

-- What a reader gives for a request of some bytes: -1 with EINTR, 0 or -1, or bytes.
pub data Reading : Type 0 where
  interrupted : Reading
  no_bytes : Reading
  delivered : List ℕ → Reading

-- wd_connection_next_session_id
unfoldable pub next_session_id : ℕ → ℕ
next_session_id current = if current == 0 || current == u8_max then 1 else current + 1

-- The two outputs of wd_connection_identity_generate_with.
pub record Identity : Type 0 where
  pub connection_token : ℕ
  pub media_clock_id : ℕ

-- The reader, wd_connection_random_read_fn with its data: a request of some bytes from a state.
module _ (Source : Type 0) (read_random : Source → ℕ → Source × Reading) where
  -- The loop of wd_connection_random_read_exact, with `left` bytes to read behind those in `buffer`;
  -- the result `none` is false. An interrupted read is repeated, so that the loop runs on fuel: the
  -- outer `none` is that it is used up.
  unfoldable pub read_exact : ℕ → Source → ℕ → List ℕ → Option (Source × Option (List ℕ))
  read_exact zero s left buffer = if left == 0 then some (s, some buffer) else none
  read_exact (suc fuel) s left buffer =
      let answer = read_random s left in
      if left == 0 then some (s, some buffer) else elim answer.1 [
        | interrupted ↦ read_exact fuel answer.0 left buffer
        | no_bytes ↦ some (answer.0, none)
        | delivered bytes ↦
            if length bytes == 0 || ltb left (length bytes)
            then some (answer.0, none)
            else read_exact fuel answer.0 (left - length bytes) (buffer ++ bytes)
      ]

  -- wd_connection_random_nonzero_u64, with the attempts left.
  unfoldable pub nonzero_u64 : ℕ → ℕ → Source → Option (Source × Option ℕ)
  unfolding read_exact
  nonzero_u64 fuel zero s = some (s, none)
  nonzero_u64 fuel (suc attempts) s = elim (read_exact fuel s 8 []) [
    | none ↦ none
    | some (s', none) ↦ some (s', none)
    | some (s', some bytes) ↦
        let rest = nonzero_u64 fuel attempts s' in
        if from_le bytes /= 0 then some (s', some (from_le bytes)) else rest
  ]

  -- The loop for the second number, with the attempts left.
  unfoldable pub other_u64 : ℕ → ℕ → ℕ → Source → Option (Source × Option Identity)
  unfolding nonzero_u64
  other_u64 fuel token zero s = some (s, none)
  other_u64 fuel token (suc attempts) s = elim (nonzero_u64 fuel random_attempts s) [
    | none ↦ none
    | some (s', none) ↦ some (s', none)
    | some (s', some clock_id) ↦
        let rest = other_u64 fuel token attempts s' in
        if clock_id /= token
        then some (s', some (record { connection_token = token; media_clock_id = clock_id }))
        else rest
  ]

  -- wd_connection_identity_generate_with, for distinct pointers; the inner `none` is `return false`,
  -- which writes nothing.
  unfoldable pub identity_generate : ℕ → Source → Option (Source × Option Identity)
  unfolding nonzero_u64 other_u64
  identity_generate fuel s = elim (nonzero_u64 fuel random_attempts s) [
    | none ↦ none
    | some (s', none) ↦ some (s', none)
    | some (s', some token) ↦ other_u64 fuel token random_attempts s'
  ]
