-- ===== src/Sequence/Stream.antt =====
-- A whole stream through the `SequencePatcher` of server/src/rtp_server/client_rtp.rs.
use simple_screen_share.Base.{
  ℕ, ◌<◌, ◌≡◌, refl, ap, ap₂, sym, subst, ◌∙◌, none, some, List, [], ◌∷◌, map, arith,
}
use simple_screen_share.Sequence.{SequencePatcher, modulus, wrapping_add, process, process_all}
use simple_screen_share.Sequence.Distance.{ahead, wrapping_add_lem}
use simple_screen_share.Sequence.Refinement.{
  IsValid, Near, process-eq-renumber, process-IsValid, process-ahead,
}

module _ (bits : ℕ) where
  -- Each value of the stream is near the one before it, the first near `r`.
  abbrev pub Smooth : ℕ → ℕ → List ℕ → Type 0
  Smooth gap r [] = Unit
  Smooth gap r (v ∷ vs) = Near bits gap r v × (v < modulus bits) × Smooth gap v vs

  -- The inputs, all moved by one offset.
  abbrev pub shift : ℕ → List ℕ → List ℕ
  shift offset = map (λ v. wrapping_add bits v offset)

  -- The same distance from `r` to `v` as from `c` to `o` is the same offset from `r` to `c` as from
  -- `v` to `o`.
  ahead_square :
      (r c v o : ℕ)
      → r < modulus bits
      → c < modulus bits
      → v < modulus bits
      → o < modulus bits
      → ahead bits c o ≡ ahead bits r v
      → (ahead bits v o ≡ ahead bits r c) × (o ≡ wrapping_add bits v (ahead bits r c))
  ahead_square r c v o hr hc hv ho e = ground (arith, wrapping_add_lem bits v (ahead bits r c) hv)

  state-process :
      (p : SequencePatcher) (r v : ℕ)
      → IsValid bits p
      → v < modulus bits
      → p.reference ≡ some r
      → ((process bits p v).0.reference ≡ some v)
        × ((process bits p v).0.current ≡ (process bits p v).1)
        × ((process bits p v).0.max_gap ≡ p.max_gap)
  state-process p r v valid hv e = rw (process-eq-renumber bits p v valid hv) (ground arith)

  process_all-shift_from :
      (p : SequencePatcher) (r : ℕ) (vs : List ℕ)
      → IsValid bits p
      → r < modulus bits
      → p.reference ≡ some r
      → Smooth p.max_gap r vs
      → (process_all bits p vs).1 ≡ shift (ahead bits r p.current) vs
  unfolding process_all
  process_all-shift_from p r [] valid hr e smooth = refl
  process_all-shift_from p r (v ∷ vs) valid hr e smooth =
      let q = (process bits p v).0 in
      let kept = process-IsValid bits p v valid smooth.1 in
      let now = state-process p r v valid smooth.1 e in
      let square =
        ahead_square r p.current v (process bits p v).1 hr valid.current_fits smooth.1 kept.1
          (process-ahead bits p r v valid smooth.1 e smooth.0) in
      let rest =
        process_all-shift_from q v vs kept.0 smooth.1 now.0
          (subst (λ g. Smooth g v vs) (sym now.2) smooth.2) in
      ap₂ ◌∷◌ square.1 (rest ∙ ap (λ o. shift o vs) (ap (ahead bits v) now.1 ∙ square.0))

  process_fresh :
      (p : SequencePatcher) (v : ℕ)
      → p.reference ≡ none
      → process bits p v ≡ (record p { reference = some v }, p.current)
  unfolding process
  process_fresh p v e = rw (e, process)

  returns :
      (c v : ℕ) → c < modulus bits → v < modulus bits → c ≡ wrapping_add bits v (ahead bits v c)
  returns c v hc hv = ground (arith, wrapping_add_lem bits v (ahead bits v c) hv)

  -- Through a valid patcher without a reference, a stream whose consecutive numbers are within the gap of each other,
  -- ahead or behind, comes out with every number shifted by one offset, whatever the order in which
  -- the packets arrive.
  pub process_all-shift :
      (p : SequencePatcher) (v : ℕ) (vs : List ℕ)
      → IsValid bits p
      → p.reference ≡ none
      → v < modulus bits
      → Smooth p.max_gap v vs
      → (process_all bits p (v ∷ vs)).1 ≡ shift (ahead bits v p.current) (v ∷ vs)
  unfolding process_all
  process_all-shift p v vs valid e hv smooth = rw (process_fresh p v e) (
      ap₂ ◌∷◌ (returns p.current v valid.current_fits hv) (
        process_all-shift_from (record p { reference = some v }) v vs
          (record {
            current_fits = valid.current_fits;
            reference_fits = hv;
            gap_fits = valid.gap_fits;
          })
          hv refl smooth))
