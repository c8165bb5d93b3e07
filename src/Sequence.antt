-- ===== src/Sequence.antt =====
-- `SequencePatcher` of server/src/rtp_server/client_rtp.rs: the sequence numbers and timestamps of
-- a relayed stream are moved to a new base. The integer type `T` is the parameter `bits`: its values
-- are the numbers below `2 ^ bits`, u16 at 16 and u32 at 32.
pub mod Distance
pub mod Refinement
pub mod Stream
mod Tests
use simple_screen_share.Base.{
  ℕ, ◌+◌, ◌-◌, ◌/◌, ◌%◌, ◌^◌, Bool, true, false, ◌&&◌, Option, none, some, List, [], ◌∷◌, ltb, leb,
  ◌==◌, unwrap_or, if◌then◌else◌,
}

pub record SequencePatcher : Type 0 where
  pub current : ℕ
  pub reference : Option ℕ
  pub max_gap : ℕ

module _ (bits : ℕ) where
  abbrev pub modulus : ℕ
  modulus = 2 ^ bits

  -- `T::max_value()`.
  abbrev pub max_value : ℕ
  max_value = modulus - 1

  unfoldable pub wrapping_add : ℕ → ℕ → ℕ
  wrapping_add a b = (a + b) % modulus

  unfoldable pub wrapping_sub : ℕ → ℕ → ℕ
  wrapping_sub a b = (a + modulus - b) % modulus

  unfoldable pub wrapping_difference : ℕ → ℕ → Option ℕ → ℕ × Bool
  wrapping_difference v1 v2 overflow_window =
      let range_overflow = unwrap_or overflow_window (max_value / 4) in
      let greatest = if ltb v2 v1 then v1 else v2 in
      let least = if ltb v2 v1 then v2 else v1 in
      if v1 == v2
      then (0, false)
      else if ltb (max_value - range_overflow) greatest && leb least range_overflow
      then (let d1 = wrapping_sub least greatest in
          let d2 = greatest - least in if ltb d1 d2 then (d1, true) else (d2, false))
      else (greatest - least, false)

  -- The branch of `process` that has a reference.
  process_from : SequencePatcher → ℕ → ℕ → SequencePatcher × ℕ
  process_from p reference value =
      let difference = (wrapping_difference reference value none).0 in
      let next =
        if ltb p.max_gap difference
        then wrapping_add p.current p.max_gap
        else if wrapping_add reference difference == value
        then wrapping_add p.current difference
        else wrapping_sub p.current difference in
      (record p { reference = some value; current = next }, next)

  unfoldable pub process : SequencePatcher → ℕ → SequencePatcher × ℕ
  unfolding process_from
  process p value = elim p.reference [
    | some reference ↦ process_from p reference value
    | none ↦ (record p { reference = some value }, p.current)
  ]

  -- A stream through the patcher: the outputs in order, and the patcher behind it.
  unfoldable pub process_all : SequencePatcher → List ℕ → SequencePatcher × List ℕ
  process_all p [] = (p, [])
  process_all p (v ∷ vs) =
      let (q, out) = process p v in let (q', outs) = process_all q vs in (q', out ∷ outs)
