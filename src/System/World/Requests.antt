-- ===== src/System/World/Requests.antt =====
-- What the requests that are pending mean for one name.
use hos_tla.Base.{
  ◌==◌, ℕ, ◌+◌, ◌≡◌, true, false, none, some, List, [], ◌∷◌, ◌++◌, arith, Text, if◌then◌else◌,
  is_some,
}
use hos_tla.Base.Maps.{get}
use hos_tla.Types.Names.{sub_account_key}
use hos_tla.Registry.{Call, Callback, Registry}
use hos_tla.System.World.{Pending}

abbrev pub one_at : Text → Text → ℕ
one_at at key = if at == key then 1 else 0

-- The entry that a request keeps in the registry although no locker holds the account: before the
-- creation has run or once it has failed, and once a deletion or an export has been carried out.
abbrev pub owes : Text → Pending → ℕ
owes key (Pending.asked _ (Callback.on_sub_account_created t n _ _ _)) =
    one_at (sub_account_key t n) key
owes key (Pending.answered false (Callback.on_sub_account_created t n _ _ _)) =
    one_at (sub_account_key t n) key
owes key (Pending.answered true (Callback.on_reclaim_finalized t n _)) =
    one_at (sub_account_key t n) key
owes key (Pending.answered true (Callback.on_export_settled t n)) = one_at (sub_account_key t n) key
owes key _ = 0

-- The additions of a key to the account that are under way.
abbrev pub adds : Text → Pending → ℕ
adds key (Pending.adding a _) = one_at a key
adds key _ = 0

abbrev pub total : (Pending → ℕ) → List Pending → ℕ
total f [] = 0
total f (q ∷ qs) = f q + total f qs

pub total-append :
    (f : Pending → ℕ) (ps qs : List Pending) → total f (ps ++ qs) ≡ total f ps + total f qs
total-append f [] qs = omega arith
total-append f (q ∷ ps) qs = omega (arith, total-append f ps qs)

-- The call and the callback of a request are about the same account.
abbrev pub IsPaired : Call → Callback → Type 0
IsPaired (Call.create_sub_account t n _ _) (Callback.on_sub_account_created u m _ _ _) =
    (t ≡ u) × (n ≡ m)
IsPaired (Call.create_sub_account t n _ _) _ = ⊥
IsPaired (Call.finalize_delete a _) (Callback.on_reclaim_finalized t n _) = a ≡ sub_account_key t n
IsPaired (Call.finalize_delete a _) _ = ⊥
IsPaired (Call.export a) (Callback.on_export_settled t n) = a ≡ sub_account_key t n
IsPaired (Call.export a) _ = ⊥
IsPaired _ (Callback.on_sub_account_created _ _ _ _ _) = ⊥
IsPaired _ (Callback.on_reclaim_finalized _ _ _) = ⊥
IsPaired _ (Callback.on_export_settled _ _) = ⊥
IsPaired _ _ = Unit

abbrev pub IsFit : Pending → Type 0
IsFit (Pending.asked (some c) cb) = IsPaired c cb
IsFit (Pending.asked none cb) = ⊥
IsFit (Pending.adding a cb) = IsPaired (Call.export a) cb
IsFit (Pending.answered _ _) = Unit

abbrev pub AllFit : List Pending → Type 0
AllFit [] = Unit
AllFit (q ∷ qs) = IsFit q × AllFit qs

pub AllFit-append : (ps qs : List Pending) → AllFit ps → AllFit qs → AllFit (ps ++ qs)
AllFit-append [] qs h k = k
AllFit-append (q ∷ ps) qs h k = (h.0, AllFit-append ps qs h.1 k)

pub AllFit-split :
    (ps : List Pending) (q : Pending) (qs : List Pending)
    → AllFit (ps ++ q ∷ qs)
    → AllFit ps × IsFit q × AllFit qs
AllFit-split [] q qs h = (tt, h.0, h.1)
AllFit-split (p ∷ ps) q qs h = let (a, b, c) = AllFit-split ps q qs h.1 in ((h.0, a), b, c)

abbrev pub entered : Text → Registry → ℕ
entered key s = if is_some (get key s.sub_accounts) then 1 else 0
