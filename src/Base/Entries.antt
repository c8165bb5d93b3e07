-- ===== src/Base/Entries.antt =====
-- A property of every entry of a map.
use mathlib.Core.List.{[], ◌∷◌}
use native.Mathlib.Omega.{arith}
use simple_screen_share.Base.Lists.{All}
use simple_screen_share.Base.Map.{Key, Map, insert, remove, update}

module _ {ℓ κ} {K : Type ℓ} {V : Type κ} ⦃o : Key K⦄ (P : K × V → Type 0) where
  pub All-insert : (k : K) (v : V) (m : Map K V) → P (k, v) → All P m → All P (insert k v m)
  unfolding insert
  All-insert k v [] p a = (p, tt)
  All-insert k v ((j, w) ∷ m) p a = ground (arith, All-insert k v m p a.1)

  pub All-remove : (k : K) (m : Map K V) → All P m → All P (remove k m)
  unfolding remove
  All-remove k [] a = tt
  All-remove k ((j, w) ∷ m) a = ground (arith, All-remove k m a.1)

  pub All-update :
      (k : K) (f : V → V) (m : Map K V)
      → ((j : K) (w : V) → P (j, w) → P (j, f w))
      → All P m
      → All P (update k f m)
  unfolding update
  All-update k f [] keep a = tt
  All-update k f ((j, w) ∷ m) keep a = ground (arith, All-update k f m keep a.1, keep j w a.0)
