-- ===== src/Buffer/Counts.antt =====
-- How many references are owned, and how many callers are about to free the buffer.
use waydisplay.Prelude.{
  ◌==◌, if◌then◌else◌, length, get_or, set, ℕ, zero, suc, ◌+◌, ◌<◌, ◌≡◌, refl, Bool, true, false,
  List, [], ◌∷◌, ◌++◌, arith,
}
use waydisplay.Buffer.{Caller, holding, retaining, last_out, departed}

-- The caller owns its reference.
abbrev pub owns : Caller → ℕ
owns holding = 1
owns (retaining _) = 1
owns last_out = 0
owns departed = 0

abbrev pub frees : Caller → ℕ
frees last_out = 1
frees _ = 0

abbrev pub owners : List Caller → ℕ
owners [] = 0
owners (c ∷ cs) = owns c + owners cs

abbrev pub freers : List Caller → ℕ
freers [] = 0
freers (c ∷ cs) = frees c + freers cs

-- Each reference is given back, and nobody is in a call.
abbrev pub all_departed : List Caller → Bool
all_departed [] = true
all_departed (departed ∷ cs) = all_departed cs
all_departed (_ ∷ _) = false

pub owners-set :
    (cs : List Caller) (i : ℕ) (c : Caller)
    → i < length cs
    → owners (set cs i c) + owns (get_or cs i departed) ≡ owners cs + owns c
owners-set [] i c lt = absurd (omega arith)
owners-set (d ∷ cs) zero c lt = omega arith
owners-set (d ∷ cs) (suc i) c lt = omega (arith, owners-set cs i c (omega arith))

pub freers-set :
    (cs : List Caller) (i : ℕ) (c : Caller)
    → i < length cs
    → freers (set cs i c) + frees (get_or cs i departed) ≡ freers cs + frees c
freers-set [] i c lt = absurd (omega arith)
freers-set (d ∷ cs) zero c lt = omega arith
freers-set (d ∷ cs) (suc i) c lt = omega (arith, freers-set cs i c (omega arith))

pub owners-append : (cs ds : List Caller) → owners (cs ++ ds) ≡ owners cs + owners ds
owners-append [] ds = omega arith
owners-append (c ∷ cs) ds = omega (arith, owners-append cs ds)

pub freers-append : (cs ds : List Caller) → freers (cs ++ ds) ≡ freers cs + freers ds
freers-append [] ds = omega arith
freers-append (c ∷ cs) ds = omega (arith, freers-append cs ds)

pub departed_counts :
    (cs : List Caller) → all_departed cs ≡ true → (owners cs ≡ 0) × (freers cs ≡ 0)
departed_counts [] e = (refl, refl)
departed_counts (departed ∷ cs) e = let (a, b) = departed_counts cs e in (omega arith, omega arith)
departed_counts (holding ∷ cs) e = absurd (ground (arith, e))
departed_counts (retaining _ ∷ cs) e = absurd (ground (arith, e))
departed_counts (last_out ∷ cs) e = absurd (ground (arith, e))

pub some_count : (cs : List Caller) → all_departed cs ≡ false → 0 < owners cs + freers cs
some_count [] e = absurd (ground (arith, e))
some_count (departed ∷ cs) e = omega (arith, some_count cs e)
some_count (holding ∷ cs) e = omega arith
some_count (retaining _ ∷ cs) e = omega arith
some_count (last_out ∷ cs) e = omega arith

pub somebody_left :
    (cs : List Caller) (i : ℕ)
    → i < length cs
    → 0 < owns (get_or cs i departed) + frees (get_or cs i departed)
    → all_departed cs ≡ false
somebody_left [] i lt h = absurd (omega arith)
somebody_left (departed ∷ cs) zero lt h = absurd (omega arith)
somebody_left (departed ∷ cs) (suc i) lt h = somebody_left cs i (omega arith) h
somebody_left (holding ∷ cs) i lt h = refl
somebody_left (retaining _ ∷ cs) i lt h = refl
somebody_left (last_out ∷ cs) i lt h = refl

abbrev pub once : ℕ → ℕ
once n = if n == 0 then 1 else 0
