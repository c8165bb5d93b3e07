-- ===== src/Base/Lists.antt =====
-- Lists measured by native numbers, `for_each` over an option, and predicates by recursion.
use Prim.Native.Nat.{ℕ, suc, ◌+◌}
use mathlib.Core.Path.{◌≡◌, refl, ap}
use mathlib.Core.Bool.{Bool, true, false, ◌||◌}
use mathlib.Core.List.{List, [], ◌∷◌, ◌++◌, map}
use mathlib.Core.Option.{Option, none, some}
use native.Mathlib.Omega.{arith}
use simple_screen_share.Base.Tests.{◌==◌, if◌then◌else◌}

module _ {ℓ} {A : Type ℓ} where
  abbrev pub length : List A → ℕ
  length [] = 0
  length (x ∷ xs) = suc (length xs)

  pub length-append : (xs ys : List A) → length (xs ++ ys) ≡ length xs + length ys
  length-append [] ys = omega arith
  length-append (x ∷ xs) ys = omega (arith, length-append xs ys)

  -- `Option::is_some`.
  abbrev pub is_some : Option A → Bool
  is_some none = false
  is_some (some a) = true

  -- `Option::unwrap_or`.
  abbrev pub unwrap_or : Option A → A → A
  unwrap_or none d = d
  unwrap_or (some a) d = a

  -- A predicate on every entry; it computes to tuples.
  abbrev pub All {κ} : (A → Type κ) → List A → Type κ
  All P [] = Unit
  All P (x ∷ xs) = P x × All P xs

  pub All-append {κ} : (P : A → Type κ) (xs ys : List A) → All P (xs ++ ys) → All P xs × All P ys
  All-append P [] ys k = (tt, k)
  All-append P (x ∷ xs) ys (p, k) = ((p, (All-append P xs ys k).0), (All-append P xs ys k).1)

pub length-map {ℓ κ} :
    {A : Type ℓ} {B : Type κ} (f : A → B) (xs : List A) → length (map f xs) ≡ length xs
length-map f [] = refl
length-map f (x ∷ xs) = ap suc (length-map f xs)

-- `contains` of a list of numbers.
unfoldable pub contains : ℕ → List ℕ → Bool
contains a [] = false
contains a (x ∷ xs) = x == a || contains a xs

-- `position` and `Vec::remove` together: the list without the first entry that equals `a`.
unfoldable pub remove_first : ℕ → List ℕ → List ℕ
remove_first a [] = []
remove_first a (x ∷ xs) = if x == a then xs else x ∷ remove_first a xs

pub contains-append :
    (a : ℕ) (xs ys : List ℕ) → contains a (xs ++ ys) ≡ (contains a xs || contains a ys)
unfolding contains
contains-append a [] ys = refl
contains-append a (x ∷ xs) ys = ground (arith, contains-append a xs ys)

pub contains-remove_first_ne :
    (a b : ℕ) (xs : List ℕ) → (b == a) ≡ false → contains b (remove_first a xs) ≡ contains b xs
unfolding contains remove_first
contains-remove_first_ne a b [] h = refl
contains-remove_first_ne a b (x ∷ xs) h = ground (arith, contains-remove_first_ne a b xs h)

pub contains-of_remove_first :
    (a b : ℕ) (xs : List ℕ) → contains b (remove_first a xs) ≡ true → contains b xs ≡ true
unfolding contains remove_first
contains-of_remove_first a b [] h = h
contains-of_remove_first a b (x ∷ xs) h = ground (arith, contains-of_remove_first a b xs)
