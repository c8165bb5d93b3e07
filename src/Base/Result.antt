-- ===== src/Base/Result.antt =====
-- `Result` of the standard library, and the text keys of the program's maps.
use Prim.Native.String.{String, compare}
use text.Mathlib.TextEquality.{path_by_compare}
use text.Mathlib.TextPositions.{compare_refl}
use mathlib.Core.Path.{◌≡◌, refl}
use mathlib.Core.Logic.{◌⊎◌, inl, inr}
use simple_screen_share.Base.Map.{Key}

pub data Result {ℓ} (A E : Type ℓ) : Type ℓ where
  ok : A → Result A E
  err : E → Result A E

instance abbrev pub string_key : Key String
string_key = record { cmp = compare; cmp_refl = compare_refl; eq_of_cmp = path_by_compare }

pub Result-cases {ℓ} :
    {A E : Type ℓ} (r : Result A E) → ((a : A) × (r ≡ ok a)) ⊎ ((e : E) × (r ≡ err e))
Result-cases (ok a) = inl (a, refl)
Result-cases (err e) = inr (e, refl)
