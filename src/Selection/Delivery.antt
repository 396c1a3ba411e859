-- ===== src/Selection/Delivery.antt =====
-- src/server/wd_selection_delivery.c: the selection text that waits to be sent to a client. Each
-- text is owned by the structure; what is freed is no longer named.
pub mod Latest
use waydisplay.Prelude.{
  ◌/=◌, if◌then◌else◌, ℕ, Bool, true, false, not, ◌&&◌, ◌||◌, Option, none, some, List,
}

-- struct wd_selection_delivery; `none` is the null pointer.
pub record Delivery : Type 0 where
  pub text : Option (List ℕ)
  pub size : ℕ
  pub known : Bool
  pub pending : Bool

-- wd_selection_delivery_init and wd_selection_delivery_destroy
pub delivery_init : Delivery
delivery_init = record { text = none; size = 0; known = false; pending = false }

pub delivery_destroy : Delivery → Delivery
unfolding delivery_init
delivery_destroy d = delivery_init

-- wd_selection_delivery_mark_unknown
pub mark_unknown : Delivery → Delivery
mark_unknown d = record d { text = none; size = 0; known = false; pending = false }

abbrev pub is_null : Option (List ℕ) → Bool
is_null none = true
is_null (some _) = false

-- wd_selection_delivery_set_owned
pub set_owned : Delivery → Option (List ℕ) → ℕ → Delivery × Bool
set_owned d text size =
    if is_null text && size /= 0
    then (d, false)
    else (record { text = text; size = size; known = true; pending = true }, true)

-- wd_selection_delivery_request
pub request : Delivery → Delivery
request d = if d.known then record d { pending = true } else d

-- wd_selection_delivery_pending: what is handed out, if anything is.
pub pending_text : Delivery → Option (Option (List ℕ) × ℕ)
pending_text d = if not d.known || not d.pending then none else some (d.text, d.size)

-- wd_selection_delivery_mark_queued
pub mark_queued : Delivery → Delivery
mark_queued d = record d { pending = false }
