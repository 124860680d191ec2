-- ===== src/TickPool/Bitmap.antt =====
-- The bits of a tick bitmap, what a flip does to them, and the place of a tick among them.
use arbitrage_bot_v.Base.{
  ℕ, suc, ◌-◌, ◌*◌, ◌/◌, ◌%◌, ◌^◌, ◌≤◌, ◌<◌, ◌≡◌, ◌≢◌, refl, ap, ◌∙◌, ◌⊎◌, inl, inr, arith, leb,
  if◌then◌else◌, Option, none, some,
}
use native.Mathlib.Decide.{ℕ_discrete}
use native.Mathlib.Nat.{pow-le-pow_right, pow-suc, div-le_self, div-add-mod'}
use arbitrage_bot_v.Base.Digit.{
  digit, digit-bit_xor, digit-pow_self, digit-pow_ne, digit-lt, digit-zero,
}
use arbitrage_bot_v.Base.Word.{shl256}
use arbitrage_bot_v.Base.Signed.{div_i32, abs32, neg32}
use arbitrage_bot_v.Base.HashMap.{HashMap, unwrap_or, insert_self, insert_ne}
use arbitrage_bot_v.TickPool.{flip_at, toggled}

abbrev pub bit_at : HashMap ℕ → ℕ × ℕ → ℕ
bit_at m (word_pos, bit_pos) = digit bit_pos (unwrap_or (m word_pos) 0)

mask-pow : (b : ℕ) → b < 256 → shl256 1 b ≡ 2 ^ b
mask-pow b h =
    let small : 2 ^ suc b ≤ 2 ^ 256 =
      pow-le-pow_right {n = 2} (omega arith) {j = 256} (omega arith) in
    omega (arith, pow-suc 2 b)

toggled_self :
    (o : Option ℕ) (b : ℕ)
    → b < 256
    → digit b (toggled o (shl256 1 b)) ≡ 1 - digit b (unwrap_or o 0)
toggled_self none b h = rw (mask-pow b h, digit-pow_self b, digit-zero b) refl
toggled_self (some word) b h =
    rw (mask-pow b h)
      (omega (arith, digit-bit_xor b word (2 ^ b), digit-pow_self b, digit-lt b word))

toggled_ne :
    (o : Option ℕ) (b c : ℕ)
    → b < 256
    → c ≢ b
    → digit c (toggled o (shl256 1 b)) ≡ digit c (unwrap_or o 0)
toggled_ne none b c h apart = rw (mask-pow b h, digit-pow_ne c b apart, digit-zero c) refl
toggled_ne (some word) b c h apart =
    rw (mask-pow b h)
      (omega (arith, digit-bit_xor c word (2 ^ b), digit-pow_ne c b apart, digit-lt c word))

-- A flip changes its bit and no other.
pub flip_at_self :
    (m : HashMap ℕ) (w b : ℕ) → b < 256 → bit_at (flip_at m (w, b)) (w, b) ≡ 1 - bit_at m (w, b)
flip_at_self m w b h = rw (insert_self m w (toggled (m w) (shl256 1 b))) (toggled_self (m w) b h)

pub flip_at_ne :
    (m : HashMap ℕ) (w b v c : ℕ)
    → b < 256
    → (v ≢ w) ⊎ (c ≢ b)
    → bit_at (flip_at m (w, b)) (v, c) ≡ bit_at m (v, c)
flip_at_ne m w b v c h apart = elim (ℕ_discrete v w) [
  | yes same ↦ elim apart [
    | inl away ↦ absurd (away same)
    | inr away ↦
        rw (same, insert_self m w (toggled (m w) (shl256 1 b))) (toggled_ne (m w) b c h away)
  ]
  | no other ↦ rw (insert_ne m w v (toggled (m w) (shl256 1 b)) other) refl
]

-- A tick by the spacing, as `div_i32` gives it.
abbrev pub place : ℕ → ℕ → ℕ
place spacing tick =
    if leb (2 ^ 31) tick then neg32 (abs32 tick / spacing) else abs32 tick / spacing

-- A tick that has a ratio and is a multiple of the spacing.
pub record IsUsable (spacing tick : ℕ) : Type 0 where
  pub word : tick < 2 ^ 32
  pub bounded : abs32 tick ≤ 887_272
  pub multiple : abs32 tick % spacing ≡ 0

pub div_i32-place :
    (spacing tick : ℕ)
    → 0 < spacing
    → spacing < 2 ^ 31
    → IsUsable spacing tick
    → div_i32 tick spacing ≡ some (place spacing tick)
div_i32-place spacing tick positive small usable = ground arith

abbrev signed : ℕ → ℕ → ℕ
signed sign q = if leb (2 ^ 31) sign then neg32 q else q

signed_magnitude : (s t q r : ℕ) → q ≤ 887_272 → r ≤ 887_272 → signed s q ≡ signed t r → q ≡ r
signed_magnitude s t q r hq hr same = ground arith

signed_word :
    (s t q : ℕ)
    → s < 2 ^ 32
    → t < 2 ^ 32
    → abs32 s ≡ abs32 t
    → 0 < q
    → q ≤ 887_272
    → signed s q ≡ signed t q
    → s ≡ t
signed_word s t q hs ht size positive small same = ground arith

pub place_apart :
    (spacing s t : ℕ)
    → 0 < spacing
    → IsUsable spacing s
    → IsUsable spacing t
    → place spacing s ≡ place spacing t
    → s ≡ t
place_apart spacing s t positive hs ht same =
    let left = div-add-mod' (abs32 s) spacing in
    let right = div-add-mod' (abs32 t) spacing in
    let less = div-le_self (abs32 s) spacing in
    let more = div-le_self (abs32 t) spacing in
    let quotient : abs32 s / spacing ≡ abs32 t / spacing =
      signed_magnitude s t _ _ (omega arith) (omega arith) same in
    let size : abs32 s ≡ abs32 t = omega (arith, ap (λ (q : ℕ). q * spacing) quotient) in
    elim (ℕ_discrete (abs32 s / spacing) 0) [
      | yes nothing ↦
          let none_left : abs32 s ≡ 0 = omega (arith, ap (λ (q : ℕ). q * spacing) nothing) in
          ground arith
      | no some_left ↦
          signed_word s t _ hs.word ht.word size (omega arith) (omega arith)
            (same ∙ ap (signed t) (omega arith))
    ]

pub place-word :
    (spacing t : ℕ)
    → IsUsable spacing t
    → (place spacing t < 2 ^ 32) × (abs32 (place spacing t) ≤ 887_272)
place-word spacing t usable =
    let less = div-le_self (abs32 t) spacing in
    let bounded = usable.bounded in signed_word_of t (abs32 t / spacing) (omega arith)
  where
    signed_word_of :
        (s q : ℕ) → q ≤ 887_272 → (signed s q < 2 ^ 32) × (abs32 (signed s q) ≤ 887_272)
    signed_word_of s q h = ground arith
