-- ===== src/Base/Maps.antt =====
-- The contract's maps (`LookupMap`, `IterableMap`), keyed by texts: an association list in order
-- of insertion, where a write to a key that is there keeps its place.
pub mod Sums
use mathlib.Core.Path.{◌≡◌, refl}
use mathlib.Core.Bool.{Bool}
use mathlib.Core.Option.{Option, none, some}
use mathlib.Core.List.{List, [], ◌∷◌}
use native.Mathlib.Omega.{arith}
use hos_tla.Base.Tests.{if◌then◌else◌, is_some}
use hos_tla.Base.Texts.{Text, ◌==◌, eq_iff, eq_refl}

abbrev pub Map {ℓ} : Type ℓ → Type ℓ
Map V = List (Text × V)

module _ {ℓ} {V : Type ℓ} where
  unfoldable pub get : Text → Map V → Option V
  get key [] = none
  get key ((at, value) ∷ rest) = if at == key then some value else get key rest

  unfoldable pub contains_key : Text → Map V → Bool
  contains_key key m = is_some (get key m)

  unfoldable pub remove : Text → Map V → Map V
  remove key [] = []
  remove key ((at, value) ∷ rest) =
      let others = remove key rest in if at == key then others else (at, value) ∷ others

  unfoldable pub insert : Text → V → Map V → Map V
  insert key new [] = (key, new) ∷ []
  insert key new ((at, value) ∷ rest) =
      if at == key then (key, new) ∷ rest else (at, value) ∷ insert key new rest

  pub get-insert :
      (key read : Text) (new : V) (m : Map V)
      → get read (insert key new m) ≡ (if key == read then some new else get read m)
  unfolding get insert
  get-insert key read new [] = ground arith
  get-insert key read new ((at, value) ∷ rest) =
      ground (arith, get-insert key read new rest, eq_iff at key, eq_iff at read, eq_iff key read)

  pub get-remove :
      (k j : Text) (m : Map V) → get j (remove k m) ≡ (if k == j then none else get j m)
  unfolding get remove
  get-remove k j [] = ground arith
  get-remove k j ((i, w) ∷ m) = ground (arith, eq_iff k j, eq_iff i k, eq_iff i j, get-remove k j m)

  pub get-insert_self : (k : Text) (v : V) (m : Map V) → get k (insert k v m) ≡ some v
  get-insert_self k v m = simp (get-insert, eq_refl)

  pub get-remove_self : (k : Text) (m : Map V) → get k (remove k m) ≡ none
  get-remove_self k m = simp (get-remove, eq_refl)
