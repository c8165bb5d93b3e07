-- ===== src/Sequence/Refinement.antt =====
-- `process` against a description by distances on the circle of values, and what a relayed stream
-- keeps of the source's numbering.
use simple_screen_share.Base.{
  ℕ, ◌/◌, ◌≤◌, ◌<◌, ◌≡◌, ◌⊎◌, inl, inr, Option, none, some, leb, Option-cases, subst, leb→le,
  Bool-cases, if◌then◌else◌, arith,
}
use simple_screen_share.Sequence.{
  SequencePatcher, modulus, wrapping_add, wrapping_sub, wrapping_difference, process_from, process,
}
use simple_screen_share.Sequence.Distance.{
  ahead, wrapping_add_lem, wrapping_sub_lem, difference_near, difference_forward,
  difference_backward,
}

module _ (bits : ℕ) where
  abbrev pub Fits : Option ℕ → Type 0
  Fits none = Unit
  Fits (some r) = r < modulus bits

  -- Every number is a value of the type, and the gap is below a quarter of the circle.
  pub record IsValid (p : SequencePatcher) : Type 0 where
    pub current_fits : p.current < modulus bits
    pub reference_fits : Fits p.reference
    pub gap_fits : p.max_gap < modulus bits / 4

  -- Where the output goes from `current` when the input goes from `reference` to `value`: by the
  -- same distance forwards or backwards if that is at most the gap, else forwards by the gap.
  abbrev pub moved : SequencePatcher → ℕ → ℕ → ℕ
  moved p reference value =
      if leb (ahead bits reference value) p.max_gap
      then wrapping_add bits p.current (ahead bits reference value)
      else if leb (ahead bits value reference) p.max_gap
      then wrapping_sub bits p.current (ahead bits value reference)
      else wrapping_add bits p.current p.max_gap

  -- The description of `process`: the first value fixes the reference only.
  abbrev pub renumber : SequencePatcher → ℕ → SequencePatcher × ℕ
  renumber p value = elim p.reference [
    | none ↦ (record p { reference = some value }, p.current)
    | some r ↦ (record p { reference = some value; current = moved p r value }, moved p r value)
  ]

  process_from-moved :
      (p : SequencePatcher) (r value : ℕ)
      → IsValid p
      → r < modulus bits
      → value < modulus bits
      → process_from bits p r value
        ≡ (record p { reference = some value; current = moved p r value }, moved p r value)
  unfolding process_from
  process_from-moved p r value valid hr hv = ground (
    arith,
    difference_near bits r value p.max_gap hr hv valid.gap_fits,
    difference_forward bits r value hr hv,
    difference_backward bits r value hr hv,
    wrapping_add_lem bits r (wrapping_difference bits r value none).0 hr,
  )

  -- On a valid patcher, `process` is the renumbering: the first value fixes the reference only; after
  -- it, distances up to the gap are kept, forwards or backwards, a larger one counts as the gap, and
  -- the value becomes the reference in every case.
  pub process-eq-renumber :
      (p : SequencePatcher) (value : ℕ)
      → IsValid p
      → value < modulus bits
      → process bits p value ≡ renumber p value
  unfolding process
  process-eq-renumber p value valid hv = elim (Option-cases p.reference) [
    | inl e ↦ rw (e, process)
    | inr (r, e) ↦
        let fits : r < modulus bits = subst Fits e valid.reference_fits in
        ground (arith, process_from-moved p r value valid fits hv)
  ]

  -- Two values are near when one is at most the gap ahead of the other.
  abbrev pub Near : ℕ → ℕ → ℕ → Type 0
  Near gap a b = (ahead bits a b ≤ gap) ⊎ (ahead bits b a ≤ gap)

  ahead-add :
      (c d : ℕ) → c < modulus bits → d < modulus bits → ahead bits c (wrapping_add bits c d) ≡ d
  ahead-add c d hc hd = ground (arith, wrapping_add_lem bits c d hc hd)

  ahead-sub :
      (c d : ℕ) → c < modulus bits → d < modulus bits → ahead bits (wrapping_sub bits c d) c ≡ d
  ahead-sub c d hc hd = ground (arith, wrapping_sub_lem bits c d hc hd)

  module _ (p : SequencePatcher) (r value : ℕ) (valid : IsValid p) (hr : r < modulus bits)
      (hv : value < modulus bits) where
    moved-lt : moved p r value < modulus bits
    moved-lt = ground (
      arith,
      wrapping_add_lem bits p.current (ahead bits r value) valid.current_fits,
      wrapping_sub_lem bits p.current (ahead bits value r) valid.current_fits,
      wrapping_add_lem bits p.current p.max_gap valid.current_fits,
    )

    moved-Near : Near p.max_gap p.current (moved p r value)
    moved-Near = elim (Bool-cases (leb (ahead bits r value) p.max_gap)) [
      | inl e ↦
          let near : ahead bits r value ≤ p.max_gap = leb→le _ _ e in
          rw e (inl (omega (arith, ahead-add p.current (ahead bits r value) valid.current_fits)))
      | inr e ↦ rw e (elim (Bool-cases (leb (ahead bits value r) p.max_gap)) [
        | inl e' ↦
            let near : ahead bits value r ≤ p.max_gap = leb→le _ _ e' in
            rw e' (inr (omega (arith, ahead-sub p.current (ahead bits value r) valid.current_fits)))
        | inr e' ↦ rw e' (inl (omega (arith, ahead-add p.current p.max_gap valid.current_fits)))
      ])
    ]

    moved-ahead :
        Near p.max_gap r value → ahead bits p.current (moved p r value) ≡ ahead bits r value
    moved-ahead near = ground (
      arith,
      wrapping_add_lem bits p.current (ahead bits r value) valid.current_fits,
      wrapping_sub_lem bits p.current (ahead bits value r) valid.current_fits,
    )

  -- The patcher stays valid, and what it puts out is a value of the type.
  pub process-IsValid :
      (p : SequencePatcher) (value : ℕ)
      → IsValid p
      → value < modulus bits
      → IsValid (process bits p value).0 × ((process bits p value).1 < modulus bits)
  process-IsValid p value valid hv =
      rw (process-eq-renumber p value valid hv) (elim (Option-cases p.reference) [
        | inl e ↦ ground arith
        | inr (r, e) ↦
            let fits : r < modulus bits = subst Fits e valid.reference_fits in
            ground (arith, moved-lt p r value valid fits hv)
      ])

  -- On a valid patcher, an output is never further than the gap from the one before it, whatever
  -- value comes in.
  pub process-Near :
      (p : SequencePatcher) (value : ℕ)
      → IsValid p
      → value < modulus bits
      → Near p.max_gap p.current (process bits p value).1
  process-Near p value valid hv =
      rw (process-eq-renumber p value valid hv) (elim (Option-cases p.reference) [
        | inl e ↦ ground arith
        | inr (r, e) ↦
            let fits : r < modulus bits = subst Fits e valid.reference_fits in
            ground (arith, moved-Near p r value valid fits hv)
      ])

  -- Near an input, the output moves by the same distance in the same direction.
  pub process-ahead :
      (p : SequencePatcher) (r value : ℕ)
      → IsValid p
      → value < modulus bits
      → p.reference ≡ some r
      → Near p.max_gap r value
      → ahead bits p.current (process bits p value).1 ≡ ahead bits r value
  process-ahead p r value valid hv e near =
      let fits : r < modulus bits = subst Fits e valid.reference_fits in
      rw (process-eq-renumber p value valid hv)
        (ground (arith, moved-ahead p r value valid fits hv near))
