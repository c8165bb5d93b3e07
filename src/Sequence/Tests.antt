-- ===== src/Sequence/Tests.antt =====
-- Runs of the patcher, and the theorems of `Sequence` at concrete streams.
use simple_screen_share.Base.{◌≡◌, refl, true, none, some, [], ◌∷◌, arith}
use simple_screen_share.Sequence.{
  SequencePatcher, wrapping_add, wrapping_sub, wrapping_difference, process, process_all,
}
use simple_screen_share.Sequence.Distance.{ahead}
use simple_screen_share.Sequence.Refinement.{IsValid, renumber, process-eq-renumber}
use simple_screen_share.Sequence.Stream.{shift, process_all-shift}

-- The sequence number patcher of `registered_send_track_io_loop`, its random base just below the
-- wrap.
abbrev sequence_patcher : SequencePatcher
sequence_patcher = record { current = 65530; reference = none; max_gap = 80 }

abbrev running_patcher : SequencePatcher
running_patcher = record { current = 65530; reference = some 10; max_gap = 80 }

-- The example of the Rust tests: a new sequence begins at 0x7C.
forward_test :
    (process_all 8
      (record { current = 0xF7; reference = none; max_gap = 0x10 })
      (0 ∷ 1 ∷ 2 ∷ 3 ∷ 5 ∷ 4 ∷ 6 ∷ 0x7C ∷ 0x7D ∷ 0x7E ∷ [])).1
    ≡ 0xF7 ∷ 0xF8 ∷ 0xF9 ∷ 0xFA ∷ 0xFC ∷ 0xFB ∷ 0xFD ∷ 0x0D ∷ 0x0E ∷ 0x0F ∷ []
unfolding process_all process wrapping_difference wrapping_add wrapping_sub
forward_test = refl

difference_test : wrapping_difference 8 0xFF 0x0E (some 0x3F) ≡ (0x0F, true)
unfolding wrapping_difference wrapping_sub
difference_test = refl

sequence_patcher-IsValid : IsValid 16 sequence_patcher
sequence_patcher-IsValid = record {
  current_fits = omega arith;
  reference_fits = tt;
  gap_fits = omega arith;
}

running_patcher-IsValid : IsValid 16 running_patcher
running_patcher-IsValid = record {
  current_fits = omega arith;
  reference_fits = omega arith;
  gap_fits = omega arith;
}

process_all-shift_example :
    (process_all 16 sequence_patcher (65535 ∷ 1 ∷ 0 ∷ 3 ∷ [])).1
    ≡ shift 16 (ahead 16 65535 65530) (65535 ∷ 1 ∷ 0 ∷ 3 ∷ [])
process_all-shift_example =
    process_all-shift 16 sequence_patcher 65535 (1 ∷ 0 ∷ 3 ∷ []) sequence_patcher-IsValid refl
      (omega arith) (omega arith)

process-eq-renumber_example : process 16 running_patcher 5 ≡ renumber 16 running_patcher 5
process-eq-renumber_example =
    process-eq-renumber 16 running_patcher 5 running_patcher-IsValid (omega arith)
