-- ===== src/Base/Map.antt =====
-- `std::collections::BTreeMap`: an association list that `insert` keeps in ascending key order, so
-- that iterating it visits the keys as the standard library does.
use Prim.Native.Nat.{ℕ, compare, Ordering}
use Prim.Native.Nat.Ordering.{lt, eq, gt}
use mathlib.Core.Path.{◌≡◌, refl}
use mathlib.Core.Bool.{Bool, true, false}
use mathlib.Core.List.{List, [], ◌∷◌}
use mathlib.Core.Option.{Option, none, some}
use native.Mathlib.Omega.{arith}
use simple_screen_share.Base.Tests.{if◌then◌else◌}
use simple_screen_share.Base.Lists.{is_some}

-- `Ord` of a key type, as far as the maps rely on it.
pub record Key {ℓ} (K : Type ℓ) : Type ℓ where
  pub cmp : K → K → Ordering
  pub cmp_refl : (a : K) → cmp a a ≡ eq
  pub eq_of_cmp : (a b : K) → cmp a b ≡ eq → a ≡ b

pub nat_cmp_refl : (a : ℕ) → compare a a ≡ eq
nat_cmp_refl a = ground arith

pub nat_eq_of_cmp : (a b : ℕ) → compare a b ≡ eq → a ≡ b
nat_eq_of_cmp a b h = ground arith

instance abbrev pub nat_key : Key ℕ
nat_key = record { cmp = compare; cmp_refl = nat_cmp_refl; eq_of_cmp = nat_eq_of_cmp }

abbrev pub same {ℓ} : {K : Type ℓ} ⦃o : Key K⦄ → K → K → Bool
same ⦃o⦄ a b = elim (o.cmp a b) [ eq ↦ true | _ ↦ false ]

abbrev pub Map {ℓ κ} : Type ℓ → Type κ → Type (ℓ ⊔ κ)
Map K V = List (K × V)

-- What `update` does to the value under one key.
abbrev pub map_at {κ} : {V : Type κ} → Bool → (V → V) → Option V → Option V
map_at b f none = none
map_at b f (some v) = if b then some (f v) else some v

module _ {ℓ κ} {K : Type ℓ} {V : Type κ} where
  -- `keys`, `values`: in ascending key order.
  abbrev pub keys : Map K V → List K
  keys [] = []
  keys ((k, v) ∷ m) = k ∷ keys m

  abbrev pub values : Map K V → List V
  values [] = []
  values ((k, v) ∷ m) = v ∷ values m

  -- `drain_filter`: the entries that stay, and those that are taken out.
  unfoldable pub retain : (K → V → Bool) → Map K V → Map K V
  retain p [] = []
  retain p ((k, v) ∷ m) = let rest = retain p m in if p k v then (k, v) ∷ rest else rest

  -- A new value for every key.
  unfoldable pub map_values {μ} : {W : Type μ} → (V → W) → Map K V → Map K W
  map_values f [] = []
  map_values f ((k, v) ∷ m) = (k, f v) ∷ map_values f m

  module _ ⦃o : Key K⦄ where
    -- `get`.
    unfoldable pub lookup : K → Map K V → Option V
    lookup k [] = none
    lookup k ((j, v) ∷ m) = if same j k then some v else lookup k m

    abbrev pub contains_key : K → Map K V → Bool
    contains_key k m = is_some (lookup k m)

    unfoldable pub insert : K → V → Map K V → Map K V
    insert k v [] = (k, v) ∷ []
    insert k v ((j, w) ∷ m) = elim (o.cmp j k) [
      | lt ↦ (j, w) ∷ insert k v m
      | eq ↦ (k, v) ∷ m
      | gt ↦ (k, v) ∷ (j, w) ∷ m
    ]

    unfoldable pub remove : K → Map K V → Map K V
    remove k [] = []
    remove k ((j, w) ∷ m) = let rest = remove k m in if same j k then rest else (j, w) ∷ rest

    -- Writes back a value that was changed in place, `get_mut`: nothing happens on a missing key.
    unfoldable pub update : K → (V → V) → Map K V → Map K V
    update k f [] = []
    update k f ((j, w) ∷ m) =
        let rest = update k f m in if same j k then (j, f w) ∷ rest else (j, w) ∷ rest

    pub lookup-insert :
        (k j : K) (v : V) (m : Map K V)
        → lookup j (insert k v m) ≡ (if same k j then some v else lookup j m)
    unfolding lookup insert
    lookup-insert k j v [] = refl
    lookup-insert k j v ((i, w) ∷ m) = ground (
      arith,
      lookup-insert k j v m,
      o.eq_of_cmp k j,
      o.eq_of_cmp i k,
      o.eq_of_cmp i j,
      o.cmp_refl k,
    )

    pub lookup-remove :
        (k j : K) (m : Map K V) → lookup j (remove k m) ≡ (if same k j then none else lookup j m)
    unfolding lookup remove
    lookup-remove k j [] = ground arith
    lookup-remove k j ((i, w) ∷ m) = ground (
      arith,
      lookup-remove k j m,
      o.eq_of_cmp k j,
      o.eq_of_cmp i k,
      o.eq_of_cmp i j,
      o.cmp_refl k,
    )

    pub lookup-update :
        (k j : K) (f : V → V) (m : Map K V)
        → lookup j (update k f m) ≡ map_at (same k j) f (lookup j m)
    unfolding lookup update
    lookup-update k j f [] = refl
    lookup-update k j f ((i, w) ∷ m) = ground (
      arith,
      lookup-update k j f m,
      o.eq_of_cmp k j,
      o.eq_of_cmp i k,
      o.eq_of_cmp i j,
      o.cmp_refl k,
    )

    pub update-missing : (k : K) (f : V → V) (m : Map K V) → lookup k m ≡ none → update k f m ≡ m
    unfolding lookup update
    update-missing k f [] e = refl
    update-missing k f ((i, w) ∷ m) e = ground (arith, update-missing k f m)

    pub lookup-insert_same : (k : K) (v : V) (m : Map K V) → lookup k (insert k v m) ≡ some v
    lookup-insert_same k v m = ground (arith, lookup-insert k k v m, o.cmp_refl k)

    pub lookup-remove_same : (k : K) (m : Map K V) → lookup k (remove k m) ≡ none
    lookup-remove_same k m = ground (arith, lookup-remove k k m, o.cmp_refl k)

    pub retain-keeps :
        (p : K → V → Bool) (k : K) (v : V) (m : Map K V)
        → lookup k m ≡ some v
        → p k v ≡ true
        → lookup k (retain p m) ≡ some v
    unfolding lookup retain
    retain-keeps p k v [] e h = ground arith
    retain-keeps p k v ((j, w) ∷ m) e h =
        ground (arith, retain-keeps p k v m, o.eq_of_cmp j k, o.cmp_refl k)

    pub retain-holds :
        (p : K → V → Bool) (k : K) (v : V) (m : Map K V)
        → lookup k (retain p m) ≡ some v
        → p k v ≡ true
    unfolding lookup retain
    retain-holds p k v [] e = ground arith
    retain-holds p k v ((j, w) ∷ m) e =
        ground (arith, retain-holds p k v m, o.eq_of_cmp j k, o.cmp_refl k)

    -- Only keys that were there are kept.
    pub retain-shrinks :
        (p : K → V → Bool) (k : K) (m : Map K V)
        → contains_key k m ≡ false
        → contains_key k (retain p m) ≡ false
    unfolding retain lookup
    retain-shrinks p k [] e = e
    retain-shrinks p k ((j, v) ∷ m) e = ground (arith, retain-shrinks p k m)
