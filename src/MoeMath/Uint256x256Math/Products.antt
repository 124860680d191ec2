-- ===== src/MoeMath/Uint256x256Math/Products.antt =====
-- The wide products of src/amms/moe/math/uint256x256_math.rs are exact.
use arbitrage_bot_v.Base.{
  ℕ, suc, ◌+◌, ◌-◌, ◌*◌, ◌/◌, ◌%◌, ◌^◌, ◌≤◌, ◌<◌, ◌≡◌, refl, sym, ap, ◌∙◌, inl, inr, Bool-cases,
  true, false, ==_iff, lt→ltb, leb→le, ltb, leb, ◌==◌, if◌then◌else◌, arith,
}
use native.Mathlib.Nat.{
  mul-le-mul, mul-le-mul_right, div-add-mod', mod-lt, pow-suc, div-le_self, div-lt_iff_lt-mul,
}
use arbitrage_bot_v.Base.Pow.{pow_add, pow-pos, digit-div, digits-lt}
use arbitrage_bot_v.Base.Word.{word_mod, add256, sub256, shl256, shr}
use arbitrage_bot_v.MoeMath.Error.{ok, err, overflow}
use arbitrage_bot_v.MoeMath.Uint256x256Math.{get_mul_prods, mul_shift_round_down}

-- The high word from the product modulo one less than the word: `p` is the product.
high_word :
    (p : ℕ)
    → p ≤ (word_mod - 1) * (word_mod - 1)
    → sub256
        (sub256 (p % (word_mod - 1)) (p % word_mod))
        (if ltb (p % (word_mod - 1)) (p % word_mod) then 1 else 0)
      ≡ p / word_mod
high_word p h = ground arith

-- The two words of a product are its low and its high word.
pub get_mul_prods_exact :
    (x y : ℕ)
    → x < word_mod
    → y < word_mod
    → get_mul_prods x y ≡ (x * y % word_mod, x * y / word_mod)
unfolding get_mul_prods
get_mul_prods_exact x y hx hy =
    let product : x * y ≤ (word_mod - 1) * (word_mod - 1) =
      mul-le-mul {n₂ = word_mod - 1} {m₂ = word_mod - 1} (omega arith) (omega arith) in
    ap (λ high. (x * y % word_mod, high)) (high_word (x * y) product)

-- A shift by less than a word, of a number whose high word is `high` and low word is `low`.
module _ (offset : ℕ) (small : offset < 256) where
  word_split : 2 ^ (256 - offset) * 2 ^ offset ≡ word_mod
  word_split = sym (pow_add (256 - offset) offset) ∙ ap (λ (k : ℕ). 2 ^ k) whole
    where
      whole : 256 - offset + offset ≡ 256
      whole = omega arith

  shifted_split :
      (p : ℕ) → p / 2 ^ offset ≡ p / word_mod * 2 ^ (256 - offset) + p % word_mod / 2 ^ offset
  shifted_split p =
      let unit = pow-pos offset in
      let words = div-add-mod' p word_mod in
      let digits = div-add-mod' (p % word_mod) (2 ^ offset) in
      let below = mod-lt (p % word_mod) unit in
      let spread : p / word_mod * 2 ^ (256 - offset) * 2 ^ offset ≡ p / word_mod * word_mod =
        grind (arith, word_split) in
      let is : p
          ≡ (p / word_mod * 2 ^ (256 - offset) + p % word_mod / 2 ^ offset) * 2 ^ offset
            + p % word_mod % 2 ^ offset =
        grind arith in
      ap (λ (q : ℕ). q / 2 ^ offset) is
      ∙ digit-div (p / word_mod * 2 ^ (256 - offset) + p % word_mod / 2 ^ offset)
          (p % word_mod % 2 ^ offset) (2 ^ offset) below

  low-lt : (p : ℕ) → p % word_mod / 2 ^ offset < 2 ^ (256 - offset)
  low-lt p = (div-lt_iff_lt-mul (pow-pos offset)).1 (rw word_split (mod-lt p (omega arith)))

  -- Above a word exactly where the high word does not fit the offset.
  shifted-lt : (p : ℕ) → p / word_mod < 2 ^ offset → p / 2 ^ offset < word_mod
  shifted-lt p h =
      let bound =
        digits-lt (p / word_mod) (p % word_mod / 2 ^ offset) (2 ^ (256 - offset)) (2 ^ offset) h
          (low-lt p) in
      rw (shifted_split p) (omega (arith, word_split, bound))

  shifted-ge : (p : ℕ) → 2 ^ offset ≤ p / word_mod → word_mod ≤ p / 2 ^ offset
  shifted-ge p h =
      let bound = mul-le-mul_right (2 ^ (256 - offset)) h in
      rw (shifted_split p) (grind (arith, word_split, bound))

  one_shifted : shl256 1 offset ≡ 2 ^ offset
  one_shifted =
      let room : 2 ^ offset < word_mod = grind (arith, word_split, two_or_more) in omega arith
    where
      one_more : 256 - offset ≡ suc (255 - offset)
      one_more = omega arith

      two_or_more : 2 ≤ 2 ^ (256 - offset)
      two_or_more =
          omega (
            arith,
            ap (λ (k : ℕ). 2 ^ k) one_more,
            pow-suc 2 (255 - offset),
            pow-pos (255 - offset),
          )

  low_word : (low : ℕ) → (if low == 0 then 0 else shr low offset) ≡ low / 2 ^ offset
  low_word low = let less = div-le_self low (2 ^ offset) in ground arith

  -- The branches of mul_shift_round_down, on the product `p`.
  shifted_lem :
      (p : ℕ)
      → (if p / word_mod == 0
          then ok (if p % word_mod == 0 then 0 else shr (p % word_mod) offset)
          else (if leb (shl256 1 offset) (p / word_mod)
              then err overflow
              else ok (
                  add256
                    (if p % word_mod == 0 then 0 else shr (p % word_mod) offset)
                    (shl256 (p / word_mod) (256 - offset)))))
        ≡ (if ltb (p / 2 ^ offset) word_mod then ok (p / 2 ^ offset) else err overflow)
  shifted_lem p =
      let split = shifted_split p in
      let unit = pow-pos offset in
      rw (low_word (p % word_mod), one_shifted)
        (elim (Bool-cases (p / word_mod == 0)) [
          | inl no_high ↦
              let none_high : p / word_mod ≡ 0 = (==_iff (p / word_mod) 0).0 no_high in
              let fits = shifted-lt p (omega arith) in
              let test : ltb (p / 2 ^ offset) word_mod ≡ true =
                lt→ltb (p / 2 ^ offset) word_mod fits in
              let value : p % word_mod / 2 ^ offset ≡ p / 2 ^ offset = grind arith in
              rw no_high (rw test (ap ok value))
          | inr high ↦ rw high (elim (Bool-cases (leb (2 ^ offset) (p / word_mod))) [
            | inl too_much ↦
                let exceeds = shifted-ge p (leb→le (2 ^ offset) (p / word_mod) too_much) in
                let test : ltb (p / 2 ^ offset) word_mod ≡ false = ground arith in
                rw too_much (rw test refl)
            | inr enough ↦
                let fits = shifted-lt p (ground arith) in
                let test : ltb (p / 2 ^ offset) word_mod ≡ true =
                  lt→ltb (p / 2 ^ offset) word_mod fits in
                let value : add256 (p % word_mod / 2 ^ offset)
                      (shl256 (p / word_mod) (256 - offset))
                    ≡ p / 2 ^ offset =
                  omega arith in
                rw enough (rw test (ap ok value))
          ])
        ])

  -- Of two words whose product shifted by less than 256 bits fits a word, mul_shift_round_down gives
  -- exactly that, and an overflow for all others.
  pub mul_shift_round_down_exact :
      (x y : ℕ)
      → x < word_mod
      → y < word_mod
      → mul_shift_round_down x y offset
        ≡ (if ltb (x * y / 2 ^ offset) word_mod then ok (x * y / 2 ^ offset) else err overflow)
  unfolding mul_shift_round_down
  mul_shift_round_down_exact x y hx hy = rw (get_mul_prods_exact x y hx hy) (shifted_lem (x * y))
