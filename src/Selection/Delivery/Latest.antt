-- ===== src/Selection/Delivery/Latest.antt =====
-- Histories of a delivery.
use waydisplay.Prelude.{
  ◌/=◌, if◌then◌else◌, ℕ, ◌≡◌, refl, Bool, true, false, ◌&&◌, Option, none, some, List, [], ◌∷◌,
  arith,
}
use waydisplay.Selection.Delivery.{
  delivery_init, mark_unknown, is_null, set_owned, request, pending_text, mark_queued, Delivery,
}

-- The calls that change a delivery.
pub data Call : Type 0 where
  forget asked queued : Call
  offer : Option (List ℕ) → ℕ → Call

abbrev pub apply : Call → Delivery → Delivery
apply forget d = mark_unknown d
apply asked d = request d
apply queued d = mark_queued d
apply (offer text size) d = (set_owned d text size).0

-- The delivery after a history, the newest call first.
abbrev pub after : List Call → Delivery
after [] = delivery_init
after (c ∷ cs) = apply c (after cs)

-- The text offered last, unless the selection has become unknown since.
abbrev pub latest : List Call → Option (Option (List ℕ) × ℕ)
latest [] = none
latest (forget ∷ cs) = none
latest (offer text size ∷ cs) = if is_null text && size /= 0 then latest cs else some (text, size)
latest (asked ∷ cs) = latest cs
latest (queued ∷ cs) = latest cs

-- Whether it is to be sent: it was offered or asked for after it was last queued.
abbrev pub wanted : List Call → Bool
wanted [] = false
wanted (forget ∷ cs) = false
wanted (offer text size ∷ cs) = if is_null text && size /= 0 then wanted cs else true
wanted (asked ∷ cs) = true
wanted (queued ∷ cs) = false

record Agrees (cs : List Call) : Type 0 where
  text : latest cs ≡ (if (after cs).known then some ((after cs).text, (after cs).size) else none)
  flag : (after cs).known ≡ true → (after cs).pending ≡ wanted cs

agrees : (cs : List Call) → Agrees cs
unfolding delivery_init mark_unknown set_owned request mark_queued
agrees [] = record { text = refl; flag = λ h. refl }
agrees (forget ∷ cs) = record { text = refl; flag = λ h. refl }
agrees (asked ∷ cs) = let a = agrees cs in ground (arith, a)
agrees (queued ∷ cs) = let a = agrees cs in ground (arith, a)
agrees (offer text size ∷ cs) = let a = agrees cs in ground (arith, a)

-- After any calls, what is handed out is the text offered last that is still known, and only while
-- it was offered or asked for since it was last queued; an offer of no bytes with a size leaves
-- everything as it was.
pub pending_latest :
    (cs : List Call) → pending_text (after cs) ≡ (if wanted cs then latest cs else none)
unfolding pending_text
pending_latest cs = let a = agrees cs in ground (arith, a)
