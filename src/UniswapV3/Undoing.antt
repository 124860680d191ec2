-- ===== src/UniswapV3/Undoing.antt =====
-- What a burn of a minted amount leaves at one tick and at one bit of a Uniswap V3 pool.
use arbitrage_bot_v.Base.{
  ℕ, ◌+◌, ◌-◌, ◌^◌, ◌<◌, ◌≡◌, refl, ◌∙◌, inl, inr, arith, Bool, true, false, ◌&&◌, ==_ne, ◌==◌,
  if◌then◌else◌, Option, none, some,
}
use native.Mathlib.Decide.{ℕ_discrete}
use arbitrage_bot_v.Base.Digit.{digit-lt}
use arbitrage_bot_v.Base.Signed.{neg128}
use arbitrage_bot_v.Base.HashMap.{HashMap, unwrap_or}
use arbitrage_bot_v.TickPool.{Info, TickMath}
use arbitrage_bot_v.TickPool.Math.{IsPlacing}
use arbitrage_bot_v.TickPool.Bitmap.{bit_at, flip_at_self, flip_at_ne}
use arbitrage_bot_v.UniswapV3.{updated_info}
use arbitrage_bot_v.UniswapV3.Positions.{turned, entry, turn}

-- An entry with room for a mint: a stored one holds liquidity and is initialized.
abbrev pub HasRoom : ℕ → Option Info → Type 0
HasRoom amount none = Unit
HasRoom amount (some info) =
    (0 < info.liquidity_gross)
    × (info.liquidity_gross + amount < 2 ^ 128)
    × (info.liquidity_net < 2 ^ 128)
    × (info.initialized ≡ true)

pub entry_back :
    (amount : ℕ) (upper : Bool) (stored : Option Info)
    → 0 < amount
    → amount < 2 ^ 127
    → HasRoom amount stored
    → entry (neg128 amount) upper (entry amount upper stored) ≡ stored
unfolding updated_info
entry_back amount upper none positive small room = ground arith
entry_back amount upper (some info) positive small room = ground arith

pub turned_back :
    (amount : ℕ) (upper : Bool) (stored : Option Info)
    → 0 < amount
    → amount < 2 ^ 127
    → HasRoom amount stored
    → turned (neg128 amount) upper (entry amount upper stored) ≡ turned amount upper stored
unfolding updated_info
turned_back amount upper none positive small room = ground arith
turned_back amount upper (some info) positive small room = ground arith

module _ {M : Type 0} (math : TickMath M) (law : IsPlacing math) where
  turn_bit :
      (flipped : Bool) (m : HashMap ℕ) (compressed v c : ℕ)
      → bit_at (turn flipped (math.position compressed) m) (v, c) ≡ (
          let at = math.position compressed in
          if ((v == at.0) && (c == at.1)) && flipped then 1 - bit_at m (v, c) else bit_at m (v, c))
  turn_bit false m compressed v c = ground arith
  turn_bit true m compressed v c =
      let at = math.position compressed in
      let in_word = law.in_word compressed in
      elim (ℕ_discrete v at.0) [
        | no words ↦ flip_at_ne m at.0 at.1 v c in_word (inl words) ∙ rw (==_ne v at.0 words) refl
        | yes word ↦ elim (ℕ_discrete c at.1) [
          | no bits ↦
              flip_at_ne m at.0 at.1 v c in_word (inr bits) ∙ rw (==_ne c at.1 bits) (ground arith)
          | yes bit ↦ rw (word, bit) (flip_at_self m at.0 at.1 in_word ∙ ground arith)
        ]
      ]

  flips_back :
      (fl fu at_s at_t : Bool) (bit once twice thrice last : ℕ)
      → bit < 2
      → once ≡ (if at_s && fl then 1 - bit else bit)
      → twice ≡ (if at_t && fu then 1 - once else once)
      → thrice ≡ (if at_s && fl then 1 - twice else twice)
      → last ≡ (if at_t && fu then 1 - thrice else thrice)
      → last ≡ bit
  flips_back fl fu at_s at_t bit once twice thrice last h first second third fourth = ground arith

  -- Flips of two places, each done twice, in the order of a mint and a burn.
  pub turn_back :
      (fl fu : Bool) (m : HashMap ℕ) (s t v c : ℕ)
      → bit_at
          (turn fu
            (math.position t)
            (turn fl (math.position s) (turn fu (math.position t) (turn fl (math.position s) m))))
          (v, c)
        ≡ bit_at m (v, c)
  turn_back fl fu m s t v c =
      let once = turn fl (math.position s) m in
      let twice = turn fu (math.position t) once in
      let thrice = turn fl (math.position s) twice in
      let small = digit-lt c (unwrap_or (m v) 0) in
      let first = turn_bit fl m s v c in
      let second = turn_bit fu once t v c in
      let third = turn_bit fl twice s v c in
      let fourth = turn_bit fu thrice t v c in
      flips_back fl fu _ _ _ _ _ _ _ small first second third fourth
