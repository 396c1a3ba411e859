-- ===== src/Keyframe/AnnexB/Codes.antt =====
-- Start codes, and the ends of NAL units, without the checks of the reads.
use waydisplay.Prelude.{
  ltb, leb, ◌==◌, ◌/=◌, if◌then◌else◌, le→ltb, ltb→le, Bool-cases, first_or_later, length, get_or,
  get_elem?-in_range, ℕ, zero, suc, ◌+◌, ◌-◌, ◌≤◌, ◌<◌, ◌≡◌, refl, subst, ◌≢◌, ◌⊎◌, inl, inr, ◌&&◌,
  ◌||◌, some, List, arith,
}
use waydisplay.Keyframe.AnnexB.{code_tail, start_code_size, unit_end}

abbrev pub byte : List ℕ → ℕ → ℕ
byte bytes i = get_or bytes i 0

-- The size of the start code that stands at the position, 0 where there is none.
unfoldable pub code_at : List ℕ → ℕ → ℕ
code_at bytes pos =
    if ltb (length bytes) (pos + 3) || (byte bytes pos /= 0 || byte bytes (pos + 1) /= 0)
    then 0
    else if byte bytes (pos + 2) == 1
    then 3
    else if leb (pos + 4) (length bytes) && (byte bytes (pos + 2) == 0 && byte bytes (pos + 3) == 1)
    then 4
    else 0

tail_value :
    (bytes : List ℕ) (pos third : ℕ)
    → pos + 3 ≤ length bytes
    → code_tail bytes (length bytes) pos third
      ≡ some (
          if third == 1
          then 3
          else if leb (pos + 4) (length bytes) && (third == 0 && byte bytes (pos + 3) == 1)
          then 4
          else 0)
unfolding code_tail
tail_value bytes pos third le = elim (Bool-cases (leb 4 (length bytes - pos))) [
  | inl room ↦
      rw (get_elem?-in_range bytes (pos + 3) 0 (ground (arith, room))) (ground (arith, room))
  | inr short ↦ rw short (ground (arith, short))
]

pub start_code_value :
    (bytes : List ℕ) (pos : ℕ) → start_code_size bytes (length bytes) pos ≡ some (code_at bytes pos)
unfolding start_code_size code_at
start_code_value bytes pos = elim (Bool-cases (ltb (length bytes) (pos + 3))) [
  | inl short ↦ ground (arith, short)
  | inr room ↦
      let le : pos + 3 ≤ length bytes = ltb→le (length bytes) (pos + 3) room in
      rw
        (
          le→ltb (length bytes) pos (omega arith),
          le→ltb (length bytes - pos) 3 (omega arith),
          get_elem?-in_range bytes pos 0 (omega arith),
          get_elem?-in_range bytes (pos + 1) 0 (omega arith),
          get_elem?-in_range bytes (pos + 2) 0 (omega arith),
          tail_value bytes pos (byte bytes (pos + 2)) le,
          room,
        )
        (ground arith)
]

-- A start code ends within the data.
pub code_at-le :
    (bytes : List ℕ) (pos : ℕ) → code_at bytes pos ≢ 0 → pos + code_at bytes pos ≤ length bytes
unfolding code_at
code_at-le bytes pos h = ground (arith, h)

-- The unit from `nal` on ends at `next`: at the end of the data or at the next start code.
pub record IsEnd (bytes : List ℕ) (nal next : ℕ) : Type 0 where
  pub after : nal ≤ next
  pub before : next ≤ length bytes
  pub inner : (i : ℕ) → nal ≤ i → i < next → code_at bytes i ≡ 0
  pub ends : (next ≡ length bytes) ⊎ (code_at bytes next ≢ 0)

pub unit_end-IsEnd :
    (bytes : List ℕ) (left nal : ℕ)
    → nal + left ≡ length bytes
    → (next : ℕ) × (unit_end bytes (length bytes) left nal ≡ some next) × IsEnd bytes nal next
unfolding unit_end
unit_end-IsEnd bytes zero nal e = (
  nal,
  refl,
  record {
    after = omega arith;
    before = omega (arith, e);
    inner = λ i lo hi. absurd (omega arith);
    ends = inl (omega (arith, e));
  },
)
unit_end-IsEnd bytes (suc left) nal e =
    let value = start_code_value bytes nal in
    let (next, returns, ends) = unit_end-IsEnd bytes left (nal + 1) (omega (arith, e)) in
    elim (Bool-cases (code_at bytes nal == 0)) [
      | inl none_here ↦ (
        next,
        rw (value, none_here) returns,
        record {
          after = omega (arith, ends.after);
          before = ends.before;
          inner = λ i lo hi. elim (first_or_later nal i lo) [
            | inl same ↦ subst (λ n. code_at bytes n ≡ 0) same (ground (arith, none_here))
            | inr later ↦ ends.inner i (omega arith) hi
          ];
          ends = ends.ends;
        },
      )
      | inr here ↦ (
        nal,
        rw (value, here) refl,
        record {
          after = omega arith;
          before = omega (arith, e);
          inner = λ i lo hi. absurd (omega arith);
          ends = inr (λ z. ground (arith, here, z));
        },
      )
    ]

pub IsEnd-unique : (bytes : List ℕ) (nal a b : ℕ) → IsEnd bytes nal a → IsEnd bytes nal b → a ≡ b
IsEnd-unique bytes nal a b h k = elim (order a b) [
  | inl e ↦ e
  | inr (inl lt) ↦ elim h.ends [
    | inl last ↦ absurd (omega (arith, last, k.before))
    | inr code ↦ absurd (code (k.inner a h.after lt))
  ]
  | inr (inr lt) ↦ elim k.ends [
    | inl last ↦ absurd (omega (arith, last, h.before))
    | inr code ↦ absurd (code (h.inner b k.after lt))
  ]
]
  where
    order : (m n : ℕ) → (m ≡ n) ⊎ ((m < n) ⊎ (n < m))
    order m n = omega arith
