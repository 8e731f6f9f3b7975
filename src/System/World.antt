-- ===== src/System/World.antt =====
-- The registry with the accounts that it has created: what it asks of a TLA's manager and of the
-- accounts' lockers runs in a step of its own, by the code of those contracts, and the callback
-- gets how that ended.
pub mod Requests
pub mod Launches
pub mod Entries
pub mod Accounts
pub mod Steps
pub mod Agreement
pub mod Orphans
pub mod Counted
use hos_tla.Base.{
  ◌==◌, ℕ, ◌+◌, ◌≡◌, Bool, true, false, Option, none, some, List, [], ◌∷◌, ◌++◌, Text,
  if◌then◌else◌, Result, ok, err,
}
use hos_tla.Base.Maps.{Map, get, insert, remove, contains_key}
use hos_tla.Types.{AccountId, PublicKey}
use hos_tla.Types.Names.{sub_account_key}
use hos_tla.Registry.{ContractError, Call, Callback, Promise, Env, Registry, new}
use hos_tla.SubAccountLocker
use hos_tla.SubAccountLocker.{
  SubState, SubAccountLocker, LockerError, on_export_resolved, export_ending,
}
use hos_tla.Manager
use hos_tla.Manager.{TlaManager, Batch, create_sub_account}
use hos_tla.Manager.Creation.{lockers}
use hos_tla.System.{Op, IsTyped, call, Ending, resolve}

-- A request of the registry on its way. `asked` has the first of its calls, where there is one; a
-- balance query for each token counts as one request.
pub data Pending : Type 0 where
  asked : Option Call → Callback → Pending
  -- the locker at the account adds the key
  adding : AccountId → Callback → Pending
  -- the callback is to run, and whether the awaited call succeeded
  answered : Bool → Callback → Pending

-- `accounts` has the accounts that the managers have created, each with its locker, those that
-- were exported included.
pub record World : Type 0 where
  pub registry : Registry
  pub accounts : Map SubAccountLocker
  pub pending : List Pending

abbrev first_call : List (Call × ℕ) → Option Call
first_call [] = none
first_call ((c, _) ∷ _) = some c

abbrev pub requests : Option Promise → List Pending
requests none = []
requests (some p) = elim p.callback [
  | none ↦ []
  | some (cb, _) ↦ Pending.asked (first_call p.calls) cb ∷ []
]

-- What a call does to the accounts: `none` where it fails. `self` is the registry's account.
abbrev on_transfer :
    AccountId
    → AccountId
    → PublicKey
    → Map SubAccountLocker
    → Option SubAccountLocker
    → Option (Map SubAccountLocker)
on_transfer self a k m none = none
on_transfer self a k m (some l) = elim (SubAccountLocker.transfer self k l) [
  | ok l' ↦ some (insert a l' m)
  | err _ ↦ none
]

abbrev on_delete :
    AccountId
    → AccountId
    → AccountId
    → Map SubAccountLocker
    → Option SubAccountLocker
    → Option (Map SubAccountLocker)
on_delete self a d m none = none
on_delete self a d m (some l) = elim (SubAccountLocker.finalize_delete self d l) [
  | ok _ ↦ some (remove a m)
  | err _ ↦ none
]

abbrev on_export :
    AccountId
    → AccountId
    → Map SubAccountLocker
    → Option SubAccountLocker
    → Option (Map SubAccountLocker)
on_export self a m none = none
on_export self a m (some l) = elim (SubAccountLocker.export self l) [
  | ok (l', _) ↦ some (insert a l' m)
  | err _ ↦ none
]

-- What a request makes of the accounts: by the locker at the account, if there is one.
abbrev pub execute : AccountId → Call → Map SubAccountLocker → Option (Map SubAccountLocker)
execute self (Call.transfer_key a k) m = on_transfer self a k m (get a m)
execute self (Call.finalize_delete a d) m = on_delete self a d m (get a m)
execute self (Call.export a) m = on_export self a m (get a m)
execute self _ m = some m

abbrev pub is_creation : Call → Bool
is_creation (Call.create_sub_account _ _ _ _) = true
is_creation _ = false

-- What is pending once a request has been carried out. The locker's export goes on with the key.
abbrev pub after_execution : Call → Callback → Pending
after_execution (Call.export a) cb = Pending.adding a cb
after_execution _ cb = Pending.answered true cb

-- Whether a receipt succeeded, and the state that it leaves: a failed one leaves the state as it was.
abbrev pub succeeded : Result LockerError SubAccountLocker → Bool
succeeded (ok _) = true
succeeded (err _) = false

abbrev pub left_by : SubAccountLocker → Result LockerError SubAccountLocker → SubAccountLocker
left_by old (ok new) = new
left_by old (err _) = old

abbrev pub start : AccountId → World
start admin = record { registry = new admin; accounts = []; pending = [] }

-- One step. A call's arguments of 32 bits fit. Requests and callbacks run in any order; a request can
-- also fail for want of gas or of money, and the addition of a key can fail. The addition of a key
-- and the locker's callback after it are one step, and so are the actions of a creation.
pub data Step (self : AccountId) : World → World → Type 0 where
  called :
      (w : World) (env : Env) (op : Op) (t : Registry) (p : Option Promise)
      → call env op w.registry ≡ ok (t, p)
      → IsTyped op
      → Step self w (record w { registry = t; pending = requests p ++ w.pending })
  -- the manager at the TLA creates an account where there is none
  created :
      (w : World) (before : List Pending) (tla name : Text) (k : PublicKey) (deposit : ℕ)
      (cb : Callback) (after : List Pending) (env : Manager.Env) (m : TlaManager) (b : Batch)
      (l : SubAccountLocker)
      → w.pending
        ≡ before ++ Pending.asked (some (Call.create_sub_account tla name k deposit)) cb ∷ after
      → env.current ≡ tla
      → create_sub_account env name k m ≡ ok b
      → lockers b.actions ≡ l ∷ []
      → contains_key b.receiver w.accounts ≡ false
      → Step self w (record w {
        accounts = insert b.receiver l w.accounts;
        pending = before ++ Pending.answered true cb ∷ after;
      })
  executed :
      (w : World) (before : List Pending) (c : Call) (cb : Callback) (after : List Pending)
      (accounts : Map SubAccountLocker)
      → w.pending ≡ before ++ Pending.asked (some c) cb ∷ after
      → is_creation c ≡ false
      → execute self c w.accounts ≡ some accounts
      → Step self w
          (record w { accounts = accounts; pending = before ++ after_execution c cb ∷ after })
  failed :
      (w : World) (before : List Pending) (c : Option Call) (cb : Callback) (after : List Pending)
      → w.pending ≡ before ++ Pending.asked c cb ∷ after
      → Step self w (record w { pending = before ++ Pending.answered false cb ∷ after })
  key_added :
      (w : World) (before : List Pending) (a : AccountId) (cb : Callback) (after : List Pending)
      (l : SubAccountLocker)
      → w.pending ≡ before ++ Pending.adding a cb ∷ after
      → get a w.accounts ≡ some l
      → Step self w (record w {
        accounts = insert a (on_export_resolved true l) w.accounts;
        pending = before ++ Pending.answered true cb ∷ after;
      })
  -- the key cannot be added; the registry gets how the locker's callback ended
  key_refused :
      (w : World) (before : List Pending) (a : AccountId) (cb : Callback) (after : List Pending)
      (l : SubAccountLocker)
      → w.pending ≡ before ++ Pending.adding a cb ∷ after
      → get a w.accounts ≡ some l
      → Step self w (record w {
        accounts = insert a (left_by l (export_ending false l)) w.accounts;
        pending = before ++ Pending.answered (succeeded (export_ending false l)) cb ∷ after;
      })
  -- the owner of an exported account deletes it
  departed :
      (w : World) (a : AccountId) (l : SubAccountLocker)
      → get a w.accounts ≡ some l
      → l.state ≡ SubState.exported
      → Step self w (record w { accounts = remove a w.accounts })
  resolved :
      (w : World) (env : Env) (e : Ending) (before : List Pending) (cb : Callback)
      (after : List Pending) (t : Registry) (p : Option Promise)
      → w.pending ≡ before ++ Pending.answered e.success cb ∷ after
      → resolve env e cb w.registry ≡ ok (t, p)
      → Step self w (record w { registry = t; pending = requests p ++ (before ++ after) })
  panicked :
      (w : World) (env : Env) (e : Ending) (before : List Pending) (cb : Callback)
      (after : List Pending) (c : ContractError)
      → w.pending ≡ before ++ Pending.answered e.success cb ∷ after
      → resolve env e cb w.registry ≡ err c
      → Step self w (record w { pending = before ++ after })

pub data Reach (self : AccountId) (w : World) : World → Type 0 where
  here : Reach self w w
  next : {v u : World} → Reach self w v → Step self v u → Reach self w u

-- No addition of a key has failed.
abbrev pub IsAdded : (self : AccountId) (w v : World) → Step self w v → Type 0
IsAdded self _ _ (key_refused _ _ _ _ _ _ _ _) = ⊥
IsAdded self _ _ _ = Unit

abbrev pub AllAdded : (self : AccountId) (w v : World) → Reach self w v → Type 0
AllAdded self w _ here = Unit
AllAdded self w _ (next {v} {u} r st) = IsAdded self v u st × AllAdded self w v r
