-- ===== src/Sequence/Distance.antt =====
-- The circular distance of two values, and what `wrapping_difference` makes of it.
use native.Mathlib.Nat.{mod-eq_of_lt, mod-eq-sub-mod}
use simple_screen_share.Base.{
  ℕ, ◌+◌, ◌-◌, ◌%◌, ◌/◌, ◌≤◌, ◌<◌, ◌≡◌, ◌↔◌, ◌⊎◌, none, ltb, leb, if◌then◌else◌, arith,
}
use simple_screen_share.Sequence.{modulus, wrapping_add, wrapping_sub, wrapping_difference}

mod_wrap : (x m : ℕ) → x < m + m → x % m ≡ (if ltb x m then x else x - m)
mod_wrap x m h = grind (arith, mod-eq_of_lt, mod-eq-sub-mod)

module _ (bits : ℕ) where
  -- How far `b` is ahead of `a` on the circle of values.
  abbrev pub ahead : ℕ → ℕ → ℕ
  ahead a b = if leb a b then b - a else b + modulus bits - a

  pub wrapping_add_lem :
      (a b : ℕ)
      → a < modulus bits
      → b < modulus bits
      → wrapping_add bits a b ≡ (if ltb (a + b) (modulus bits) then a + b else a + b - modulus bits)
  unfolding wrapping_add
  wrapping_add_lem a b ha hb = mod_wrap (a + b) (modulus bits) (omega arith)

  pub wrapping_sub_lem :
      (a b : ℕ) → a < modulus bits → b < modulus bits → wrapping_sub bits a b ≡ ahead b a
  unfolding wrapping_sub
  wrapping_sub_lem a b ha hb =
      ground (arith, mod_wrap (a + modulus bits - b) (modulus bits) (omega arith))

  -- The computed difference of two values is within a gap below a quarter of the circle exactly if
  -- one of the values is at most the gap ahead of the other.
  pub difference_near :
      (v1 v2 gap : ℕ)
      → v1 < modulus bits
      → v2 < modulus bits
      → gap < modulus bits / 4
      → ((wrapping_difference bits v1 v2 none).0 ≤ gap)
        ↔ ((ahead v1 v2 ≤ gap) ⊎ (ahead v2 v1 ≤ gap))
  unfolding wrapping_difference
  difference_near v1 v2 gap h1 h2 hg =
      ground (arith, wrapping_sub_lem v1 v2 h1 h2, wrapping_sub_lem v2 v1 h2 h1)

  -- The distance itself, in whichever direction it is short.
  pub difference_forward :
      (v1 v2 : ℕ)
      → v1 < modulus bits
      → v2 < modulus bits
      → ahead v1 v2 < modulus bits / 4
      → (wrapping_difference bits v1 v2 none).0 ≡ ahead v1 v2
  unfolding wrapping_difference
  difference_forward v1 v2 h1 h2 hg =
      ground (arith, wrapping_sub_lem v1 v2 h1 h2, wrapping_sub_lem v2 v1 h2 h1)

  pub difference_backward :
      (v1 v2 : ℕ)
      → v1 < modulus bits
      → v2 < modulus bits
      → ahead v2 v1 < modulus bits / 4
      → (wrapping_difference bits v1 v2 none).0 ≡ ahead v2 v1
  unfolding wrapping_difference
  difference_backward v1 v2 h1 h2 hg =
      ground (arith, wrapping_sub_lem v1 v2 h1 h2, wrapping_sub_lem v2 v1 h2 h1)
