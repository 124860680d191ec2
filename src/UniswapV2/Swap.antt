-- ===== src/UniswapV2/Swap.antt =====
-- What a swap on a constant-product pool gives, and that it never lowers the product of the
-- reserves.
use arbitrage_bot_v.Base.{ℕ, ◌+◌, ◌-◌, ◌*◌, ◌/◌, ◌^◌, ◌≤◌, ◌<◌, ◌≡◌, ap, ◌∙◌, arith}
use arbitrage_bot_v.Base.{some, ltb, ◌==◌, ==_ne, true, if◌then◌else◌, Bool-cases, inl, inr}
use arbitrage_bot_v.UniswapV2.{UniswapV2Pool, get_amount_out, simulate_swap, simulate_swap_mut}
use native.Mathlib.Decide.{ℕ_discrete}
use arbitrage_bot_v.Base.Word.{sub256, mul256, add256, u128}
use native.Mathlib.Nat.{
  mul-pos, zero-div, le-div_iff_mul-le, mul-le-mul, mul-le-mul_left, mul-le-mul_right,
  le_of_mul-le-mul_right, div-mul-le_self, div-lt_iff_lt-mul, mul_comm,
}

-- The amount out without wrap: what is left of the input after the fee, at the price of the pool.
unfoldable pub quoted : ℕ → ℕ → ℕ → ℕ → ℕ
quoted fee amount_in reserve_in reserve_out =
    amount_in * (100_000 - fee) * reserve_out / (reserve_in * 100_000 + amount_in * (100_000 - fee))

-- Reserves of at most 112 bits, of which none is empty, and a fee below 100%.
pub record IsPool (p : UniswapV2Pool) : Type 0 where
  pub some_0 : 0 < p.reserve_0
  pub some_1 : 0 < p.reserve_1
  pub fits_0 : p.reserve_0 < 2 ^ 112
  pub fits_1 : p.reserve_1 < 2 ^ 112
  pub share : p.fee ≤ 100_000

with_fee-lt : (a f : ℕ) → a < 2 ^ 127 → f ≤ 100_000 → a * f < 2 ^ 144
with_fee-lt a f ha hf =
    let h : a * f ≤ 2 ^ 127 * 100_000 = mul-le-mul {n₂ = 2 ^ 127} (omega arith) hf in omega arith

numerator-lt : (x r : ℕ) → x < 2 ^ 144 → r < 2 ^ 112 → x * r < 2 ^ 256
numerator-lt x r hx hr =
    let h : x * r ≤ (2 ^ 144 - 1) * (2 ^ 112 - 1) =
      mul-le-mul {n₁ = x} {m₁ = r} {n₂ = 2 ^ 144 - 1} {m₂ = 2 ^ 112 - 1} (omega arith)
        (omega arith) in
    omega arith

quoted-zero : (fee a ri ro : ℕ) → a * (100_000 - fee) ≡ 0 → quoted fee a ri ro ≡ 0
unfolding quoted
quoted-zero fee a ri ro h =
    let d = ri * 100_000 + a * (100_000 - fee) in
    ap (λ (x : ℕ). x * ro / d) h ∙ ap (λ (x : ℕ). x / d) (omega arith) ∙ zero-div d

-- Within these bounds nothing wraps.
pub get_amount_out-quoted :
    (p : UniswapV2Pool) (a ri ro : ℕ)
    → p.fee ≤ 100_000
    → a < 2 ^ 127
    → 0 < ri
    → ri < 2 ^ 112
    → 0 < ro
    → ro < 2 ^ 112
    → get_amount_out p a ri ro ≡ some (quoted p.fee a ri ro)
unfolding get_amount_out quoted
get_amount_out-quoted p a ri ro hf ha pi hi po ho =
    let f = 100_000 - p.fee in
    let with_fee = with_fee-lt a f ha (omega arith) in
    let top = numerator-lt (a * f) ro with_fee ho in
    let fee : sub256 100_000 p.fee ≡ f = omega arith in
    let paid : mul256 a f ≡ a * f = omega arith in
    let numerator : mul256 (a * f) ro ≡ a * f * ro = omega arith in
    let denominator : add256 (mul256 ri 100_000) (a * f) ≡ ri * 100_000 + a * f = omega arith in
    let sound = ==_ne (ri * 100_000 + a * f) 0 (omega arith) in
    elim (ℕ_discrete a 0) [
      | yes empty ↦
          let test : (a == 0) ≡ true = ground arith in
          rw (test, quoted-zero p.fee a ri ro (rw empty (omega arith)))
      | no full ↦ rw (
        ==_ne a 0 full,
        ==_ne ri 0 (omega arith),
        ==_ne ro 0 (omega arith),
        fee,
        paid,
        numerator,
        denominator,
        sound,
      )
    ]

-- A quote is below the reserve, and the product of the reserves does not fall.
quoted-lt : (fee a ri ro : ℕ) → 0 < ri → 0 < ro → quoted fee a ri ro < ro
unfolding quoted
quoted-lt fee a ri ro hi ho =
    let d = ri * 100_000 + a * (100_000 - fee) in
    let strict : 0 < ri * 100_000 * ro = mul-pos (omega arith) ho in
    (div-lt_iff_lt-mul (omega arith)).1 (omega (arith, mul_comm ro d))

quoted-product : (fee a ri ro : ℕ) → fee ≤ 100_000 → quoted fee a ri ro * (ri + a) ≤ a * ro
unfolding quoted
quoted-product fee a ri ro hf = elim (ℕ_discrete fee 100_000) [
  | yes all ↦
      let none_left : a * (100_000 - fee) ≡ 0 = rw all (omega arith) in
      rw (quoted-zero fee a ri ro none_left) (omega arith)
  | no some_left ↦
      let f = 100_000 - fee in
      let d = ri * 100_000 + a * f in
      let out = a * f * ro / d in
      let whole : out * d ≤ a * f * ro = div-mul-le_self (a * f * ro) d in
      let smaller : out * ri * f ≤ out * ri * 100_000 = mul-le-mul_left (out * ri) (omega arith) in
      le_of_mul-le-mul_right {k = f} (omega arith) (omega arith)
]

more :
    (A k ro R : ℕ) → 0 < R → A * ro / (R + A) ≤ ro → A * ro / (R + A) ≤ (A + k) * ro / (R + (A + k))
more A k ro R hR small =
    let q = A * ro / (R + A) in
    let whole : q * (R + A) ≤ A * ro = div-mul-le_self (A * ro) (R + A) in
    let rest : q * k ≤ ro * k = mul-le-mul_right k small in
    (le-div_iff_mul-le {k = R + (A + k)} {x = q} (omega arith)).1 (omega arith)

-- A larger input never buys less.
pub quoted_mono :
    (fee a b ri ro : ℕ) → a ≤ b → 0 < ri → 0 < ro → quoted fee a ri ro ≤ quoted fee b ri ro
unfolding quoted
quoted_mono fee a b ri ro h hi ho =
    let f = 100_000 - fee in
    let apart : b ≡ a + (b - a) = omega arith in
    let split : b * f ≡ a * f + (b - a) * f = omega (arith, ap (λ (x : ℕ). x * f) apart) in
    let small = quoted-lt fee a ri ro hi ho in
    rw split (more (a * f) ((b - a) * f) ro (ri * 100_000) (omega arith) (omega arith))

-- The product of the two reserves after a trade.
product-le :
    (ri ro a out : ℕ) → out ≤ ro → out * (ri + a) ≤ a * ro → ri * ro ≤ (ri + a) * (ro - out)
product-le ri ro a out h k =
    let apart : ro ≡ ro - out + out = omega arith in
    omega (arith, ap (λ (x : ℕ). ri * x) apart, ap (λ (x : ℕ). a * x) apart)

-- A swap on a pool of usable reserves never panics. It moves the input and the quoted output between
-- the reserves, agrees with the simulation that changes nothing, leaves the rest of the pool, never
-- empties a reserve, and never lowers the product of the reserves.
pub simulate_swap_mut-product :
    (p : UniswapV2Pool) (base quote a : ℕ)
    → IsPool p
    → a < 2 ^ 127
    → (p' : UniswapV2Pool) × (out : ℕ) × (simulate_swap_mut p base quote a ≡ some (p', out))
      × (simulate_swap p base quote a ≡ some out)
      × (p' ≡ (
          if p.token_a.address == base
          then record p { reserve_0 = p.reserve_0 + a; reserve_1 = p.reserve_1 - out }
          else record p { reserve_0 = p.reserve_0 - out; reserve_1 = p.reserve_1 + a }))
      × (out ≡ (
          if p.token_a.address == base
          then quoted p.fee a p.reserve_0 p.reserve_1
          else quoted p.fee a p.reserve_1 p.reserve_0))
      × (0 < p'.reserve_0)
      × (0 < p'.reserve_1)
      × (p.reserve_0 * p.reserve_1 ≤ p'.reserve_0 * p'.reserve_1)
unfolding simulate_swap_mut simulate_swap
simulate_swap_mut-product p base quote a h ha = elim (Bool-cases (p.token_a.address == base)) [
  | inl forward ↦
      let out = quoted p.fee a p.reserve_0 p.reserve_1 in
      let below = quoted-lt p.fee a p.reserve_0 p.reserve_1 h.some_0 h.some_1 in
      let exact =
        get_amount_out-quoted p a p.reserve_0 p.reserve_1 h.share ha h.some_0 h.fits_0 h.some_1
          h.fits_1 in
      let fits : ltb a (2 ^ 128) ≡ true = ground arith in
      let narrow : ltb out (2 ^ 128) ≡ true = ground arith in
      let paid : u128 (p.reserve_0 + a) ≡ p.reserve_0 + a = omega arith in
      let taken : u128 (p.reserve_1 + 2 ^ 128 - out) ≡ p.reserve_1 - out = omega arith in
      (
        record p { reserve_0 = p.reserve_0 + a; reserve_1 = p.reserve_1 - out },
        out,
        rw (forward, exact, fits, narrow, paid, taken),
        rw (forward, exact),
        rw forward,
        rw forward,
        omega arith,
        omega arith,
        product-le p.reserve_0 p.reserve_1 a out (omega arith)
            (quoted-product p.fee a p.reserve_0 p.reserve_1 h.share),
      )
  | inr backward ↦
      let out = quoted p.fee a p.reserve_1 p.reserve_0 in
      let below = quoted-lt p.fee a p.reserve_1 p.reserve_0 h.some_1 h.some_0 in
      let exact =
        get_amount_out-quoted p a p.reserve_1 p.reserve_0 h.share ha h.some_1 h.fits_1 h.some_0
          h.fits_0 in
      let fits : ltb a (2 ^ 128) ≡ true = ground arith in
      let narrow : ltb out (2 ^ 128) ≡ true = ground arith in
      let paid : u128 (p.reserve_1 + a) ≡ p.reserve_1 + a = omega arith in
      let taken : u128 (p.reserve_0 + 2 ^ 128 - out) ≡ p.reserve_0 - out = omega arith in
      let grows =
        product-le p.reserve_1 p.reserve_0 a out (omega arith)
          (quoted-product p.fee a p.reserve_1 p.reserve_0 h.share) in
      (
        record p { reserve_0 = p.reserve_0 - out; reserve_1 = p.reserve_1 + a },
        out,
        rw (backward, exact, fits, narrow, paid, taken),
        rw (backward, exact),
        rw backward,
        rw backward,
        omega arith,
        omega arith,
        omega (
          arith,
          grows,
          mul_comm p.reserve_1 p.reserve_0,
          mul_comm (p.reserve_1 + a) (p.reserve_0 - out),
        ),
      )
]
