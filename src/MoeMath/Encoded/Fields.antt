-- ===== src/MoeMath/Encoded/Fields.antt =====
-- What `set` and `decode` of encoded.rs do to the fields of a word, as arithmetic.
use arbitrage_bot_v.Base.{ℕ, ◌+◌, ◌-◌, ◌*◌, ◌/◌, ◌%◌, ◌^◌, ◌≤◌, ◌<◌, bit_and}
use arbitrage_bot_v.Base.{◌≡◌, refl, sym, ap, ◌∙◌, ◌⊎◌, inl, inr, arith}
use arbitrage_bot_v.Base.Word.{word_mod, shl256, not256}
use arbitrage_bot_v.Base.Pow.{pow_add, pow-pos, digit-div, digit-mod, mod-mul-div, digits-lt}
use arbitrage_bot_v.Base.Bits.{
  bit_and_parts, bit_or_parts, bit_and_ones, bit_and-zero, bit_or-zero, bit_and_mask, bit_or_fields,
}
use arbitrage_bot_v.MoeMath.Encoded.{set, decode}
use native.Mathlib.Nat.{mod-lt, mod-eq_of_lt, div-add-mod', div-lt_iff_lt-mul, div-div-eq-div-mul}
use native.Mathlib.Nat.{
  le-mul_of_pos_right, mul_comm, mul_assoc, mul-pos, dvd-mul_right, mod-mod_of_dvd,
}

-- A word mask that clears the field of `w` bits at bit `o`, with `t` bits above.
field_room : (o w t : ℕ) → o + w + t ≡ 256 → 2 ^ o * 2 ^ w * 2 ^ t ≡ word_mod
field_room o w t h =
    ap (λ (x : ℕ). x * 2 ^ t) (sym (pow_add o w))
    ∙ sym (pow_add (o + w) t)
    ∙ ap (λ (x : ℕ). 2 ^ x) h

clear_mask_suc :
    (o w t : ℕ) → (o + 1) * (w + 1) * (t + 1) - 1 - w * (o + 1) ≡ (t * (w + 1) + 0) * (o + 1) + o
clear_mask_suc o w t = omega arith

clear_mask :
    (O W T o w t : ℕ)
    → O ≡ o + 1
    → W ≡ w + 1
    → T ≡ t + 1
    → O * W * T - 1 - w * O ≡ (t * W + 0) * O + o
clear_mask O W T o w t ho hw ht = rw (ho, hw, ht) (clear_mask_suc o w t)

mask_fits : (O W T : ℕ) → 0 < O → 0 < W → 0 < T → (W - 1) * O < O * W * T
mask_fits O W T ho hw ht = grind arith

value_fits : (O W T v : ℕ) → 0 < T → v < W → 0 < O → v * O < O * W * T
value_fits O W T v ht hv ho =
    let below : v * O < O * W = grind arith in
    let above = le-mul_of_pos_right (O * W) ht in omega arith

-- The three parts of a word at a field: above, in, and below.
split_at : (e O W : ℕ) → e ≡ (e / (O * W) * W + e / O % W) * O + e % O
split_at e O W = omega (
  arith,
  div-add-mod' e O,
  ap (λ (x : ℕ). x * O) (div-add-mod' (e / O) W),
  ap (λ (x : ℕ). x * W * O) (div-div-eq-div-mul e O W),
)

top-lt : (o w t e : ℕ) → o + w + t ≡ 256 → e < word_mod → e / (2 ^ o * 2 ^ w) < 2 ^ t
top-lt o w t e room he =
    (div-lt_iff_lt-mul (mul-pos (pow-pos o) (pow-pos w))).1
      (omega (arith, field_room o w t room, mul_comm (2 ^ t) (2 ^ o * 2 ^ w)))

module _ (o w t e v : ℕ) (room : o + w + t ≡ 256) (he : e < word_mod) where
  cleared_lem :
      bit_and e (not256 (shl256 (2 ^ w - 1) o)) ≡ e / (2 ^ o * 2 ^ w) * 2 ^ w * 2 ^ o + e % 2 ^ o
  cleared_lem =
      let O = 2 ^ o in
      let W = 2 ^ w in
      let T = 2 ^ t in
      let size = field_room o w t room in
      let mask : shl256 (W - 1) o ≡ (W - 1) * O =
        mod-eq_of_lt (rw (← size) (mask_fits O W T (pow-pos o) (pow-pos w) (pow-pos t))) in
      let clear : not256 (shl256 (W - 1) o) ≡ ((T - 1) * W + 0) * O + (O - 1) =
        ap not256 mask
        ∙ ap (λ (x : ℕ). x - 1 - (W - 1) * O) (sym size)
        ∙ clear_mask O W T (O - 1) (W - 1) (T - 1) (omega (arith, pow-pos o))
            (omega (arith, pow-pos w)) (omega (arith, pow-pos t)) in
      let high = top-lt o w t e room he in
      let outer =
        bit_and_parts o (e / (O * W) * W + e / O % W) (e % O) ((T - 1) * W + 0) (O - 1)
          (split_at e O W) clear (mod-lt e (pow-pos o)) (omega (arith, pow-pos o)) in
      let inner =
        bit_and_parts w (e / (O * W)) (e / O % W) (T - 1) 0 refl refl (mod-lt _ (pow-pos w))
          (pow-pos w) in
      outer
      ∙ omega (
        arith,
        ap (λ (x : ℕ). x * O) inner,
        ap (λ (x : ℕ). x * W * O) (bit_and_ones t (e / (O * W)) high),
        ap (λ (x : ℕ). x * O) (bit_and-zero (e / O % W)),
        bit_and_ones o (e % O) (mod-lt e (pow-pos o)),
      )

  pub set_lem :
      set e v (2 ^ w - 1) o ≡ (e / (2 ^ o * 2 ^ w) * 2 ^ w + v % 2 ^ w) * 2 ^ o + e % 2 ^ o
  unfolding set
  set_lem =
      let O = 2 ^ o in
      let W = 2 ^ w in
      let T = 2 ^ t in
      let hi = e / (O * W) in
      let size = field_room o w t room in
      let small = mod-lt v (pow-pos w) in
      let value : shl256 (bit_and v (W - 1)) o ≡ v % W * O + 0 =
        ap (λ (x : ℕ). shl256 x o) (bit_and_mask w v)
        ∙ mod-eq_of_lt (rw (← size) (value_fits O W T (v % W) (pow-pos t) small (pow-pos o)))
        ∙ omega arith in
      bit_or_parts o (hi * W) (e % O) (v % W) 0 cleared_lem value (mod-lt e (pow-pos o)) (pow-pos o)
      ∙ omega (arith, ap (λ (x : ℕ). x * O) (bit_or_fields w hi (v % W) small), bit_or-zero (e % O))

  pub set-lt : set e v (2 ^ w - 1) o < word_mod
  set-lt =
      let hi = e / (2 ^ o * 2 ^ w) in
      let field =
        digits-lt hi (v % 2 ^ w) (2 ^ w) (2 ^ t) (top-lt o w t e room he) (mod-lt v (pow-pos w)) in
      let whole =
        digits-lt (hi * 2 ^ w + v % 2 ^ w) (e % 2 ^ o) (2 ^ o) (2 ^ w * 2 ^ t) field
          (mod-lt e (pow-pos o)) in
      omega (arith, set_lem, field_room o w t room, mul_assoc (2 ^ o) (2 ^ w) (2 ^ t))

  low_part : set e v (2 ^ w - 1) o % 2 ^ o ≡ e % 2 ^ o
  low_part =
      ap (λ (x : ℕ). x % 2 ^ o) set_lem
      ∙ digit-mod (e / (2 ^ o * 2 ^ w) * 2 ^ w + v % 2 ^ w) (e % 2 ^ o) (2 ^ o)
          (mod-lt e (pow-pos o))

  from_field : set e v (2 ^ w - 1) o / 2 ^ o ≡ e / (2 ^ o * 2 ^ w) * 2 ^ w + v % 2 ^ w
  from_field =
      ap (λ (x : ℕ). x / 2 ^ o) set_lem
      ∙ digit-div (e / (2 ^ o * 2 ^ w) * 2 ^ w + v % 2 ^ w) (e % 2 ^ o) (2 ^ o)
          (mod-lt e (pow-pos o))

  high_part : set e v (2 ^ w - 1) o / (2 ^ o * 2 ^ w) ≡ e / (2 ^ o * 2 ^ w)
  high_part =
      sym (div-div-eq-div-mul _ (2 ^ o) (2 ^ w))
      ∙ ap (λ (x : ℕ). x / 2 ^ w) from_field
      ∙ digit-div (e / (2 ^ o * 2 ^ w)) (v % 2 ^ w) (2 ^ w) (mod-lt v (pow-pos w))

pub decode_lem : (x w o : ℕ) → decode x (2 ^ w - 1) o ≡ x / 2 ^ o % 2 ^ w
unfolding decode
decode_lem x w o = bit_and_mask w (x / 2 ^ o)

-- A field that lies below bit `o` is read from the low part alone.
decode_low :
    (x y w' o' o : ℕ)
    → o' + w' ≤ o
    → x % 2 ^ o ≡ y % 2 ^ o
    → decode x (2 ^ w' - 1) o' ≡ decode y (2 ^ w' - 1) o'
decode_low x y w' o' o h e =
    decode_lem x w' o'
    ∙ reads x
    ∙ ap (λ (t : ℕ). t % (2 ^ o' * 2 ^ w') / 2 ^ o') e
    ∙ sym (reads y)
    ∙ sym (decode_lem y w' o')
  where
    split : 2 ^ o ≡ 2 ^ o' * 2 ^ w' * 2 ^ (o - (o' + w'))
    split =
        ap (λ (t : ℕ). 2 ^ t) (omega arith)
        ∙ pow_add (o' + w') (o - (o' + w'))
        ∙ ap (λ (t : ℕ). t * 2 ^ (o - (o' + w'))) (pow_add o' w')

    reads : (z : ℕ) → z / 2 ^ o' % 2 ^ w' ≡ z % 2 ^ o % (2 ^ o' * 2 ^ w') / 2 ^ o'
    reads z =
        sym (mod-mul-div z (2 ^ o') (2 ^ w') (pow-pos o') (pow-pos w'))
        ∙ ap (λ (t : ℕ). t / 2 ^ o')
            (sym
              (mod-mod_of_dvd (2 ^ o' * 2 ^ w') z (rw split (dvd-mul_right (2 ^ o' * 2 ^ w') _))))

-- A field that lies above bit `o + w` is read from the high part alone.
decode_high :
    (x y w' o' o w : ℕ)
    → o + w ≤ o'
    → x / (2 ^ o * 2 ^ w) ≡ y / (2 ^ o * 2 ^ w)
    → decode x (2 ^ w' - 1) o' ≡ decode y (2 ^ w' - 1) o'
decode_high x y w' o' o w h e =
    decode_lem x w' o'
    ∙ ap (λ (t : ℕ). t % 2 ^ w')
        (reads x ∙ ap (λ (t : ℕ). t / 2 ^ (o' - (o + w))) e ∙ sym (reads y))
    ∙ sym (decode_lem y w' o')
  where
    reads : (z : ℕ) → z / 2 ^ o' ≡ z / (2 ^ o * 2 ^ w) / 2 ^ (o' - (o + w))
    reads z =
        ap (λ (t : ℕ). z / t)
          (ap (λ (t : ℕ). 2 ^ t) (omega arith)
            ∙ pow_add (o + w) (o' - (o + w))
            ∙ ap (λ (t : ℕ). t * 2 ^ (o' - (o + w))) (pow_add o w))
        ∙ sym (div-div-eq-div-mul z (2 ^ o * 2 ^ w) (2 ^ (o' - (o + w))))

module _ (o w t e v : ℕ) (room : o + w + t ≡ 256) (he : e < word_mod) where
  pub decode-set_self : decode (set e v (2 ^ w - 1) o) (2 ^ w - 1) o ≡ v % 2 ^ w
  decode-set_self =
      decode_lem (set e v (2 ^ w - 1) o) w o
      ∙ ap (λ (x : ℕ). x % 2 ^ w) (from_field o w t e v room he)
      ∙ digit-mod (e / (2 ^ o * 2 ^ w)) (v % 2 ^ w) (2 ^ w) (mod-lt v (pow-pos w))

  -- The fields below and above the one that is set are left as they were.
  pub decode-set_other :
      (w' o' : ℕ)
      → (o' + w' ≤ o) ⊎ (o + w ≤ o')
      → decode (set e v (2 ^ w - 1) o) (2 ^ w' - 1) o' ≡ decode e (2 ^ w' - 1) o'
  decode-set_other w' o' (inl below) = decode_low _ e w' o' o below (low_part o w t e v room he)
  decode-set_other w' o' (inr above) = decode_high _ e w' o' o w above (high_part o w t e v room he)
