-- ===== src/Base/Maps/Sums.antt =====
-- The sum of a quantity over the entries of a map, under each update.
use Prim.Native.Nat.{ℕ, ◌+◌, ◌≤◌}
use mathlib.Core.Path.{◌≡◌, refl}
use mathlib.Core.Option.{Option, none, some}
use mathlib.Core.List.{[], ◌∷◌}
use native.Mathlib.Omega.{arith}
use hos_tla.Base.Texts.{Text, eq_iff}
use hos_tla.Base.Maps.{Map, get, insert, remove, get-insert, get-remove}

module _ {ℓ} {V : Type ℓ} where
  -- No key stands twice.
  abbrev pub IsMap : Map V → Type ℓ
  IsMap [] = Unit
  IsMap ((k, v) ∷ m) = (get k m ≡ none) × IsMap m

  pub insert-IsMap : (k : Text) (v : V) (m : Map V) → IsMap m → IsMap (insert k v m)
  unfolding insert get
  insert-IsMap k v [] h = (refl, tt)
  insert-IsMap k v ((j, w) ∷ m) h =
      ground (arith, insert-IsMap k v m h.1, get-insert k j v m, eq_iff j k, eq_iff k j)

  pub remove-IsMap : (k : Text) (m : Map V) → IsMap m → IsMap (remove k m)
  unfolding remove
  remove-IsMap k [] h = tt
  remove-IsMap k ((j, w) ∷ m) h = ground (arith, remove-IsMap k m h.1, get-remove k j m)

  -- What an entry that may be missing counts for.
  abbrev pub weight : (V → ℕ) → Option V → ℕ
  weight f none = 0
  weight f (some v) = f v

  abbrev pub sum_by : (V → ℕ) → Map V → ℕ
  sum_by f [] = 0
  sum_by f ((k, v) ∷ m) = f v + sum_by f m

  pub sum_by-insert :
      (f : V → ℕ) (k : Text) (v : V) (m : Map V)
      → sum_by f (insert k v m) + weight f (get k m) ≡ sum_by f m + f v
  unfolding insert get
  sum_by-insert f k v [] = omega arith
  sum_by-insert f k v ((j, w) ∷ m) = ground (arith, sum_by-insert f k v m)

  remove_absent : (k : Text) (m : Map V) → get k m ≡ none → remove k m ≡ m
  unfolding remove get
  remove_absent k [] h = refl
  remove_absent k ((j, w) ∷ m) h = ground (arith, remove_absent k m)

  pub sum_by-remove :
      (f : V → ℕ) (k : Text) (m : Map V)
      → IsMap m
      → sum_by f (remove k m) + weight f (get k m) ≡ sum_by f m
  unfolding remove get
  sum_by-remove f k [] h = omega arith
  sum_by-remove f k ((j, w) ∷ m) h =
      ground (arith, sum_by-remove f k m h.1, remove_absent k m, eq_iff j k)

  pub weight-le-sum_by : (f : V → ℕ) (k : Text) (m : Map V) → weight f (get k m) ≤ sum_by f m
  unfolding get
  weight-le-sum_by f k [] = omega arith
  weight-le-sum_by f k ((j, w) ∷ m) = ground (arith, weight-le-sum_by f k m)
