-- ===== src/Selection/Utf8/Scalars.antt =====
-- The validity check against the encoding that Unicode defines.
use mathlib.Core.List.{append_assoc}
use waydisplay.Prelude.{
  ltb, leb, if◌then◌else◌, bool_eq, ltb→lt, ltb→le, Bool-cases, Option-cases, and_true, length,
  drop, All, length-append, All-drop, IsU8, ℕ, zero, suc, ◌+◌, ◌-◌, ◌*◌, ◌/◌, ◌%◌, ◌≤◌, ◌<◌, ◌≡◌,
  refl, sym, ap, ◌∙◌, ◌≢◌, ◌↔◌, ◌⊎◌, inl, inr, Bool, true, ◌&&◌, some, List, [], ◌∷◌, ◌++◌, arith,
}
use waydisplay.Selection.Utf8.{is_continuation, accept, valid_from, text_is_valid}

-- A code point that text may contain: neither NUL nor a surrogate.
pub record IsScalar (c : ℕ) : Type 0 where
  pub positive : 0 < c
  pub in_range : c < 0x11_0000
  pub no_surrogate : (c < 0xd800) ⊎ (0xe000 ≤ c)

-- The UTF-8 form of one code point.
pub encode_scalar : ℕ → List ℕ
encode_scalar c =
    if ltb c 0x80
    then c ∷ []
    else if ltb c 0x800
    then (0xc0 + c / 0x40) ∷ (0x80 + c % 0x40) ∷ []
    else if ltb c 0x1_0000
    then (0xe0 + c / 0x1000) ∷ (0x80 + c / 0x40 % 0x40) ∷ (0x80 + c % 0x40) ∷ []
    else (0xf0 + c / 0x4_0000)
      ∷ (0x80 + c / 0x1000 % 0x40)
      ∷ (0x80 + c / 0x40 % 0x40)
      ∷ (0x80 + c % 0x40)
      ∷ []

pub encode_all : List ℕ → List ℕ
encode_all [] = []
encode_all (c ∷ cs) = encode_scalar c ++ encode_all cs

-- Two tests that give the same for every number below a bound, by evaluation.
tests_agree : (ℕ → Bool) → (ℕ → Bool) → ℕ → Bool
tests_agree f g zero = true
tests_agree f g (suc bound) = bool_eq (f bound) (g bound) && tests_agree f g bound

same_test :
    (f g : ℕ → Bool) (bound : ℕ) {b : ℕ} → tests_agree f g bound ≡ true → b < bound → f b ≡ g b
unfolding tests_agree
same_test f g zero t below = absurd (omega arith)
same_test f g (suc bound) {b} t below =
    let (here, rest) = and_true _ _ t in
    elim (last b bound below) [
      | inl e ↦ rw e (bool_eq→eq _ _ here)
      | inr lt ↦ same_test f g bound rest lt
    ]
  where
    bool_eq→eq : (x y : Bool) → bool_eq x y ≡ true → x ≡ y
    bool_eq→eq x y h = ground arith

    last : (b n : ℕ) → b < suc n → (b ≡ n) ⊎ (b < n)
    last b n h = omega arith

is_continuation_lem : (b : ℕ) → IsU8 b → is_continuation b ≡ (leb 0x80 b && ltb b 0xc0)
unfolding is_continuation tests_agree
is_continuation_lem b h = same_test is_continuation (λ x. leb 0x80 x && ltb x 0xc0) 256 refl h

low_continuation : (x : ℕ) → is_continuation (0x80 + x % 0x40) ≡ true
low_continuation x = ground (arith, is_continuation_lem (0x80 + x % 0x40))

-- What the loop needs of a code point's bytes in front of more text.
Accepted : ℕ → List ℕ → Type 0
Accepted c more =
    (first : ℕ) × (tail : List ℕ) × (encode_scalar c ≡ first ∷ tail)
    × (accept first (tail ++ more) ≡ some (length tail))
    × (drop (length tail) (tail ++ more) ≡ more)

-- Every encoded code point is accepted with all its bytes.
accept_encoded : (c : ℕ) (more : List ℕ) → IsScalar c → Accepted c more
unfolding Accepted encode_scalar accept
accept_encoded c more s = elim (sizes c) [
  | inl a ↦ (c, [], ground arith, ground arith, refl)
  | inr (inl a) ↦ (
    0xc0 + c / 0x40,
    (0x80 + c % 0x40) ∷ [],
    ground arith,
    ground (arith, low_continuation c),
    refl,
  )
  | inr (inr (inl a)) ↦ (
    0xe0 + c / 0x1000,
    (0x80 + c / 0x40 % 0x40) ∷ (0x80 + c % 0x40) ∷ [],
    ground arith,
    ground (arith, low_continuation c, low_continuation (c / 0x40)),
    refl,
  )
  | inr (inr (inr a)) ↦ (
    0xf0 + c / 0x4_0000,
    (0x80 + c / 0x1000 % 0x40) ∷ (0x80 + c / 0x40 % 0x40) ∷ (0x80 + c % 0x40) ∷ [],
    ground arith,
    ground (arith, low_continuation c, low_continuation (c / 0x40), low_continuation (c / 0x1000)),
    refl,
  )
]
  where
    sizes :
        (n : ℕ)
        → (n < 0x80) ⊎ ((0x80 ≤ n) × (n < 0x800)) ⊎ ((0x800 ≤ n) × (n < 0x1_0000)) ⊎ (0x1_0000 ≤ n)
    sizes n = omega arith

valid_step :
    (fuel first n : ℕ) (rest more : List ℕ)
    → accept first rest ≡ some n
    → drop n rest ≡ more
    → valid_from (suc fuel) (first ∷ rest) ≡ valid_from fuel more
unfolding valid_from
valid_step fuel first n rest more a d = rw (a, valid_from, d)

valid_one :
    (fuel first : ℕ) (tail more : List ℕ)
    → accept first (tail ++ more) ≡ some (length tail)
    → drop (length tail) (tail ++ more) ≡ more
    → length ((first ∷ tail) ++ more) ≤ fuel
    → ((k : ℕ) → k < fuel → length more ≤ k → valid_from k more ≡ true)
    → valid_from fuel ((first ∷ tail) ++ more) ≡ true
valid_one zero first tail more a d h ih = absurd (omega arith)
valid_one (suc k) first tail more a d h ih =
    valid_step k first (length tail) (tail ++ more) more a d
    ∙ ih k (omega arith) (omega (arith, length-append tail more))

valid_encoded :
    (cs : List ℕ) (fuel : ℕ)
    → All IsScalar cs
    → length (encode_all cs) ≤ fuel
    → valid_from fuel (encode_all cs) ≡ true
unfolding encode_all Accepted
valid_encoded [] fuel s h = unfold valid_from in refl
valid_encoded (c ∷ cs) fuel (s, ss) h =
    let (first, tail, e, a, d) = accept_encoded c (encode_all cs) s in
    rw e (
      valid_one fuel first tail (encode_all cs) a d (rw e at h)
        (λ k _ room. valid_encoded cs k ss room))

-- The code point that starts at the first byte.
decode_scalar : ℕ → ℕ → ℕ → ℕ → ℕ
decode_scalar first b c d =
    if ltb first 0x80
    then first
    else if ltb first 0xe0
    then (first - 0xc0) * 0x40 + (b - 0x80)
    else if ltb first 0xf0
    then (first - 0xe0) * 0x1000 + (b - 0x80) * 0x40 + (c - 0x80)
    else (first - 0xf0) * 0x4_0000 + (b - 0x80) * 0x1000 + (c - 0x80) * 0x40 + (d - 0x80)

abbrev Decoded : ℕ → List ℕ → ℕ → Type 0
Decoded first rest n = (c : ℕ) × IsScalar c × (first ∷ rest ≡ encode_scalar c ++ drop n rest)

-- The numbers of a four byte sequence that is accepted.
record Four (first b c d : ℕ) : Type 0 where
  lead : (0xf0 ≤ first) × (first ≤ 0xf4)
  second : (0x80 ≤ b) × (b < 0xc0)
  third : (0x80 ≤ c) × (c < 0xc0)
  fourth : (0x80 ≤ d) × (d < 0xc0)
  low : (first ≢ 0xf0) ⊎ (0x90 ≤ b)
  high : (first ≢ 0xf4) ⊎ (b ≤ 0x8f)

Four-accepted :
    (first b c d : ℕ) (more : List ℕ) {n : ℕ}
    → 0xf0 ≤ first
    → IsU8 b
    → IsU8 c
    → IsU8 d
    → accept first (b ∷ c ∷ d ∷ more) ≡ some n
    → (n ≡ 3) × Four first b c d
unfolding accept
Four-accepted first b c d more f wb wc wd h =
    let lb = is_continuation_lem b wb in
    let lc = is_continuation_lem c wc in
    let ld = is_continuation_lem d wd in (ground arith, ground (arith, lb, lc, ld))

Four-value :
    (first b c d : ℕ)
    → Four first b c d
    → IsScalar (decode_scalar first b c d)
      × (encode_scalar (decode_scalar first b c d) ≡ first ∷ b ∷ c ∷ d ∷ [])
unfolding decode_scalar encode_scalar
Four-value first b c d f = (ground arith, ground arith)

four-Decoded :
    (first b c d : ℕ) (more : List ℕ) {n : ℕ}
    → 0xf0 ≤ first
    → IsU8 b
    → IsU8 c
    → IsU8 d
    → accept first (b ∷ c ∷ d ∷ more) ≡ some n
    → Decoded first (b ∷ c ∷ d ∷ more) n
four-Decoded first b c d more f wb wc wd h =
    let (three, four) = Four-accepted first b c d more f wb wc wd h in
    let (s, e) = Four-value first b c d four in (decode_scalar first b c d, s, rw (three, e))

-- A sequence of at most three bytes does not look further.
short_accepted :
    (first b c d : ℕ) (more : List ℕ) {n : ℕ}
    → first < 0xf0
    → accept first (b ∷ c ∷ d ∷ more) ≡ some n
    → (accept first (b ∷ c ∷ []) ≡ accept first (b ∷ c ∷ d ∷ more)) × (n ≤ 2)
unfolding accept
short_accepted first b c d more l h = (ground arith, ground arith)

short-Decoded :
    (first b c d : ℕ) (more : List ℕ) {n : ℕ}
    → n ≤ 2
    → Decoded first (b ∷ c ∷ []) n
    → Decoded first (b ∷ c ∷ d ∷ more) n
short-Decoded first b c d more {n} h (x, s, e) = (
  x,
  s,
  ap (λ l. l ++ d ∷ more) e
      ∙ append_assoc (encode_scalar x) (drop n (b ∷ c ∷ [])) (d ∷ more)
      ∙ ap (λ l. encode_scalar x ++ l) (dropped n h),
)
  where
    dropped : (n : ℕ) → n ≤ 2 → drop n (b ∷ c ∷ []) ++ d ∷ more ≡ drop n (b ∷ c ∷ d ∷ more)
    dropped zero h = refl
    dropped (suc zero) h = refl
    dropped (suc (suc zero)) h = refl
    dropped (suc (suc (suc n))) h = absurd (omega arith)

three-Decoded :
    (first b c : ℕ) {n : ℕ}
    → IsU8 first
    → IsU8 b
    → IsU8 c
    → accept first (b ∷ c ∷ []) ≡ some n
    → Decoded first (b ∷ c ∷ []) n
unfolding accept encode_scalar decode_scalar
three-Decoded first b c w wb wc h =
    let lb = is_continuation_lem b wb in
    let lc = is_continuation_lem c wc in
    (decode_scalar first b c 0, ground (arith, lb, lc), ground (arith, lb, lc))

accept-Decoded :
    (first : ℕ) (rest : List ℕ) {n : ℕ}
    → IsU8 first
    → All IsU8 rest
    → accept first rest ≡ some n
    → Decoded first rest n
unfolding accept encode_scalar decode_scalar
accept-Decoded first [] w ws h = (decode_scalar first 0 0 0, ground arith, ground arith)
accept-Decoded first (b ∷ []) w (wb, ws) h =
    let lb = is_continuation_lem b wb in
    (decode_scalar first b 0 0, ground (arith, lb), ground (arith, lb))
accept-Decoded first (b ∷ c ∷ []) w (wb, (wc, ws)) h = three-Decoded first b c w wb wc h
accept-Decoded first (b ∷ c ∷ d ∷ more) w (wb, (wc, (wd, ws))) h =
    elim (Bool-cases (ltb first 0xf0)) [
      | inl short ↦
          let (e, two) = short_accepted first b c d more (ltb→lt first 0xf0 short) h in
          short-Decoded first b c d more two (three-Decoded first b c w wb wc (e ∙ h))
      | inr long ↦ four-Decoded first b c d more (ltb→le first 0xf0 long) wb wc wd h
    ]

valid_decoded :
    (fuel : ℕ) (text : List ℕ)
    → All IsU8 text
    → valid_from fuel text ≡ true
    → (cs : List ℕ) × All IsScalar cs × (text ≡ encode_all cs)
unfolding encode_all
valid_decoded fuel [] w h = ([], tt, refl)
valid_decoded zero (first ∷ rest) w h = absurd (unfold valid_from in cc)
valid_decoded (suc fuel) (first ∷ rest) (w, ws) h = elim (Option-cases (accept first rest)) [
  | inl e ↦ absurd (unfold valid_from in ground (arith, e))
  | inr (n, e) ↦
      let (c, s, split) = accept-Decoded first rest w ws e in
      let (cs, ss, more) =
        valid_decoded fuel (drop n rest) (All-drop IsU8 n rest ws)
          (sym (valid_step fuel first n rest (drop n rest) e refl) ∙ h) in
      (c ∷ cs, (s, ss), split ∙ ap (λ t. encode_scalar c ++ t) more)
]

-- Clipboard text is valid exactly when it is the UTF-8 form of some code points, none of them NUL
-- or a surrogate: overlong, truncated and out-of-range forms are refused, and nothing else is.
pub text_is_valid-iff-encoded :
    (text : List ℕ)
    → All IsU8 text
    → (text_is_valid text ≡ true) ↔ ((cs : List ℕ) × All IsScalar cs × (text ≡ encode_all cs))
unfolding text_is_valid
text_is_valid-iff-encoded text w = (
  valid_decoded (length text) text w,
  λ h. let (cs, ss, e) = h in rw e (valid_encoded cs (length (encode_all cs)) ss (omega arith)),
)
