-- ===== src/Transport/Tcp/Delivered.antt =====
-- What the peer receives of a message.
use mathlib.Core.List.{append-nil}
use waydisplay.Prelude.{
  length, take, drop, length-append, take-length, length-drop, take-add, take_of_le, drop-append_le,
  drop-append_ge, size_max, ℕ, ◌+◌, ◌-◌, ◌≤◌, ◌<◌, min, ◌≡◌, refl, sym, ap, ap₂, ◌∙◌, ◌⊎◌, inl, inr,
  none, some, List, [], ◌∷◌, ◌++◌, arith,
}
use waydisplay.Transport.Tcp.{
  plan_owned_send, advance, SendPlan, ℤ, pos, negsuc, SendProgress, send_failed, send_partial,
  send_complete,
}

-- The bytes that a plan submits.
pub submitted_bytes : SendPlan → List ℕ → List ℕ → List ℕ
submitted_bytes p head payload =
    take p.inline_size (drop p.inline_offset head)
    ++ take p.payload_size (drop p.payload_offset payload)

plan_bytes :
    (head payload : List ℕ) (sent : ℕ)
    → length head + length payload ≤ size_max
    → sent < length head + length payload
    → (p : SendPlan) × (plan_owned_send (length head) (length payload) sent ≡ some p)
      × (submitted_bytes p head payload ≡ drop sent (head ++ payload))
unfolding plan_owned_send submitted_bytes
plan_bytes head payload sent fits lt = elim (within sent (length head)) [
  | inl early ↦ (
    record {
      inline_offset = sent;
      inline_size = length head - sent;
      payload_offset = 0;
      payload_size = length payload;
    },
    ground arith,
    ap₂ ◌++◌ (take_of_le _ _ (omega (arith, length-drop sent head))) (take-length payload)
        ∙ sym (drop-append_le sent head payload (omega arith)),
  )
  | inr late ↦ (
    record {
      inline_offset = 0;
      inline_size = 0;
      payload_offset = sent - length head;
      payload_size = length payload - (sent - length head);
    },
    ground arith,
    take_of_le _ _ (omega (arith, length-drop (sent - length head) payload))
        ∙ sym (drop-append_ge head payload sent late),
  )
]
  where
    within : (a b : ℕ) → (a < b) ⊎ (b ≤ a)
    within a b = omega arith

-- The result of a call that submits some bytes: `pos room` is a socket with room for that many, which
-- takes the first of the bytes and returns how many it has taken; `negsuc` is an error.
pub call_result : ℤ → List ℕ → ℤ
call_result (pos room) bytes = pos (min room (length bytes))
call_result (negsuc e) bytes = negsuc e

-- The bytes that the socket takes in a call with this result, and that reach the peer.
pub taken_bytes : ℤ → List ℕ → List ℕ
taken_bytes (pos n) bytes = take n bytes
taken_bytes (negsuc e) bytes = []

-- The submissions of one message, given what the socket does at each call: the bytes sent by the
-- sender's own count, the bytes that the peer received, and the progress. What makes no progress
-- further is not submitted again.
pub send_all : List ℕ → List ℕ → List ℤ → ℕ → List ℕ → ℕ × List ℕ × SendProgress
send_all head payload [] sent wire = (sent, wire, send_partial)
send_all head payload (answer ∷ answers) sent wire =
    elim (plan_owned_send (length head) (length payload) sent) [
      | none ↦ (sent, wire, send_failed)
      | some p ↦
          let bytes = submitted_bytes p head payload in
          let result = call_result answer bytes in
          let (sent', progress) = advance (length head + length payload) sent result in
          let wire' = wire ++ taken_bytes result bytes in
          elim progress [
            | send_partial ↦ send_all head payload answers sent' wire'
            | send_complete ↦ (sent', wire', send_complete)
            | send_failed ↦ (sent', wire', send_failed)
          ]
    ]

pub Delivered : List ℕ → ℕ × List ℕ × SendProgress → Type 0
Delivered message (sent, wire, progress) =
    (wire ≡ take sent message)
    × (((progress ≡ send_complete) × (wire ≡ message))
        ⊎ (((progress ≡ send_partial) ⊎ (progress ≡ send_failed)) × (sent < length message)))

-- What one result makes of a message that is not complete.
Advanced : List ℕ → ℕ → List ℕ → ℕ × SendProgress → Type 0
Advanced message total wire (sent, progress) =
    (wire ≡ take sent message)
    × (sent ≤ total)
    × (((progress ≡ send_complete) × (sent ≡ total))
        ⊎ (((progress ≡ send_partial) ⊎ (progress ≡ send_failed)) × (sent < total)))

advance-taken :
    (total sent n : ℕ)
    → sent < total
    → n ≤ total - sent
    → let (sent', progress) = advance total sent (pos n) in
      (sent' ≡ sent + n)
      × (((progress ≡ send_complete) × (sent' ≡ total))
          ⊎ (((progress ≡ send_partial) ⊎ (progress ≡ send_failed)) × (sent' < total)))
unfolding advance
advance-taken total sent n lt le = ground arith

advance-fails :
    (total sent e : ℕ)
    → sent < total
    → let (sent', progress) = advance total sent (negsuc e) in
      (sent' ≡ sent) × ((progress ≡ send_partial) ⊎ (progress ≡ send_failed))
unfolding advance
advance-fails total sent e lt = ground arith

advance-Advanced :
    (message bytes wire : List ℕ) (total sent : ℕ) (answer : ℤ)
    → total ≡ length message
    → bytes ≡ drop sent message
    → wire ≡ take sent message
    → sent < total
    → let result = call_result answer bytes in
      Advanced message total (wire ++ taken_bytes result bytes) (advance total sent result)
unfolding Advanced call_result taken_bytes
advance-Advanced message bytes wire total sent (pos room) t b e lt =
    let n = min room (length bytes) in
    let size : length bytes ≡ length message - sent = ap length b ∙ length-drop sent message in
    let bound : n ≤ total - sent = omega arith in
    let (moved, cases) = advance-taken total sent n lt bound in
    let wired : wire ++ take n bytes ≡ take (sent + n) message =
      ap₂ (λ w c. w ++ take n c) e b ∙ sym (take-add sent n message) in
    rw moved (wired, omega arith, rw moved at cases)
advance-Advanced message bytes wire total sent (negsuc failure) t b e lt =
    let (same, going) = advance-fails total sent failure lt in
    rw same (append-nil wire ∙ e, omega arith, inr (going, lt))

send_all-Delivered :
    (head payload : List ℕ) (answers : List ℤ) (sent : ℕ) (wire : List ℕ)
    → length head + length payload ≤ size_max
    → sent < length head + length payload
    → wire ≡ take sent (head ++ payload)
    → Delivered (head ++ payload) (send_all head payload answers sent wire)
unfolding send_all Delivered Advanced
send_all-Delivered head payload [] sent wire fits lt e =
    (e, inr (inl refl, omega (arith, length-append head payload)))
send_all-Delivered head payload (answer ∷ answers) sent wire fits lt e =
    let message = head ++ payload in
    let total = length-append head payload in
    let (p, made, same) = plan_bytes head payload sent fits lt in
    let bytes = submitted_bytes p head payload in
    let (after, bound, cases) =
      advance-Advanced message bytes wire _ sent answer (sym total) same e lt in
    let sent' = (advance (length head + length payload) sent (call_result answer bytes)).0 in
    rw (send_all, made)
      (elim cases [
        | inl (complete, all_sent) ↦
            rw complete (after, inl (refl, after ∙ take_of_le sent' message (omega (arith, total))))
        | inr (inl going, short) ↦
            rw going (send_all-Delivered head payload answers sent' _ fits short after)
        | inr (inr failed, short) ↦ rw failed (after, inr (inr refl, omega (arith, total)))
      ])

-- For a message of at least one byte whose size fits a size_t, and a socket that takes the first of
-- the submitted bytes, as far as it has room, and returns how many it took: however the calls split
-- the message, and whatever errors they return, the peer has received exactly the first `sent`
-- bytes of the inline part followed by the payload, in order and none twice; and the sender calls
-- the message complete exactly when that is all of it.
pub message-Delivered :
    (head payload : List ℕ) (answers : List ℤ)
    → length head + length payload ≤ size_max
    → 0 < length head + length payload
    → Delivered (head ++ payload) (send_all head payload answers 0 [])
message-Delivered head payload answers fits some_bytes =
    send_all-Delivered head payload answers 0 [] fits some_bytes refl
