-- ===== src/Base/Sets.antt =====
-- The contract's sets (`IterableSet`) as lists without repetition. The order of iteration after a
-- removal is the collection's own, and nothing depends on it.
use Prim.Native.Nat.{◌+◌}
use mathlib.Core.Path.{◌≡◌, refl}
use mathlib.Core.Bool.{Bool, true, false}
use mathlib.Core.List.{List, [], ◌∷◌, ◌++◌}
use native.Mathlib.Omega.{arith}
use hos_tla.Base.Tests.{if◌then◌else◌}
use hos_tla.Base.Texts.{Text, ◌==◌, eq_iff, length, length-append}

unfoldable pub contains : Text → List Text → Bool
contains a [] = false
contains a (x ∷ xs) = if x == a then true else contains a xs

-- `set.insert(a)`, without its answer whether `a` was new.
unfoldable pub add : Text → List Text → List Text
unfolding contains
add a xs = if contains a xs then xs else xs ++ a ∷ []

-- `set.remove(a)`, without its answer whether `a` was there.
unfoldable pub delete : Text → List Text → List Text
delete a [] = []
delete a (x ∷ xs) = if x == a then xs else x ∷ delete a xs

-- No element stands twice.
abbrev pub IsSetList : List Text → Type 0
IsSetList [] = Unit
IsSetList (x ∷ xs) = (contains x xs ≡ false) × IsSetList xs

contains-append :
    (a x : Text) (xs : List Text)
    → contains a (xs ++ x ∷ []) ≡ (if contains a xs then true else x == a)
unfolding contains
contains-append a x [] = ground arith
contains-append a x (y ∷ xs) = ground (arith, contains-append a x xs)

pub contains-add :
    (a b : Text) (xs : List Text) → contains b (add a xs) ≡ (if a == b then true else contains b xs)
unfolding add
contains-add a b xs = ground (arith, contains-append b a xs, eq_iff a b)

pub length-add :
    (a : Text) (xs : List Text)
    → length (add a xs) ≡ (if contains a xs then length xs else length xs + 1)
unfolding add
length-add a xs = ground (arith, length-append xs (a ∷ []))

pub length-delete :
    (a : Text) (xs : List Text)
    → length (delete a xs) + 1 ≡ (if contains a xs then length xs else length xs + 1)
unfolding delete contains
length-delete a [] = refl
length-delete a (x ∷ xs) = ground (arith, length-delete a xs)

contains-delete_ne :
    (a b : Text) (xs : List Text) → (a == b) ≡ false → contains b (delete a xs) ≡ contains b xs
unfolding delete contains
contains-delete_ne a b [] h = refl
contains-delete_ne a b (x ∷ xs) h =
    ground (arith, contains-delete_ne a b xs h, eq_iff x a, eq_iff x b, eq_iff a b)

contains-delete_self : (a : Text) (xs : List Text) → IsSetList xs → contains a (delete a xs) ≡ false
unfolding delete contains
contains-delete_self a [] h = refl
contains-delete_self a (x ∷ xs) h = ground (arith, contains-delete_self a xs h.1, eq_iff x a)

pub contains-delete :
    (a b : Text) (xs : List Text)
    → IsSetList xs
    → contains b (delete a xs) ≡ (if a == b then false else contains b xs)
contains-delete a b xs h =
    ground (arith, contains-delete_ne a b xs, contains-delete_self a xs h, eq_iff a b)

append-IsSetList :
    (a : Text) (xs : List Text) → contains a xs ≡ false → IsSetList xs → IsSetList (xs ++ a ∷ [])
unfolding contains
append-IsSetList a [] e h = (refl, tt)
append-IsSetList a (x ∷ xs) e h =
    ground (arith, append-IsSetList a xs, contains-append x a xs, eq_iff x a, eq_iff a x)

pub add-IsSetList : (a : Text) (xs : List Text) → IsSetList xs → IsSetList (add a xs)
unfolding add
add-IsSetList a xs h = ground (arith, append-IsSetList a xs)

pub delete-IsSetList : (a : Text) (xs : List Text) → IsSetList xs → IsSetList (delete a xs)
unfolding delete
delete-IsSetList a [] h = tt
delete-IsSetList a (x ∷ xs) h =
    ground (arith, delete-IsSetList a xs h.1, contains-delete_ne a x xs, eq_iff x a, eq_iff a x)
