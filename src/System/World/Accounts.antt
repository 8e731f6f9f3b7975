-- ===== src/System/World/Accounts.antt =====
-- What the requests that are carried out do to the accounts.
use hos_tla.Base.{
  ℕ, ◌+◌, ◌≡◌, true, false, Option, none, some, [], ◌∷◌, arith, Text, eq_iff, ok, Option-cases, inl,
  inr,
}
use hos_tla.Base.Maps.{Map, get, insert, remove, contains_key, get-insert, get-remove}
use hos_tla.Types.{AccountId, PublicKey}
use hos_tla.Types.Names.{sub_account_key}
use hos_tla.Registry.{Call, Callback}
use hos_tla.SubAccountLocker
use hos_tla.SubAccountLocker.{
  SubState, SubAccountLocker, on_export_resolved, assert_registry, assert_held,
}
use hos_tla.Manager
use hos_tla.Manager.{TlaManager, Batch, create_sub_account}
use hos_tla.Manager.Creation.{lockers}
use hos_tla.System.World.{Pending, execute, after_execution, is_creation}
use hos_tla.System.World.Requests.{owes, adds, IsPaired, IsFit}

abbrev pub state_of : Option SubAccountLocker → Option SubState
state_of none = none
state_of (some l) = some l.state

-- The account stands under the registry's control, as its locker's state says; and a key is being
-- added to it.
abbrev pub is_controlled : Option SubState → ℕ
is_controlled (some SubState.held) = 1
is_controlled (some SubState.exporting) = 1
is_controlled _ = 0

abbrev pub is_exporting : Option SubState → ℕ
is_exporting (some SubState.exporting) = 1
is_exporting _ = 0

abbrev pub controlled : Text → Map SubAccountLocker → ℕ
controlled key m = is_controlled (state_of (get key m))

abbrev pub exporting : Text → Map SubAccountLocker → ℕ
exporting key m = is_exporting (state_of (get key m))

-- `before` and `after` a change of the accounts and of one pending request: the account is under
-- control, or its entry is owed, as often as before, and likewise for the keys being added.
pub record Balances (key : Text) (m : Map SubAccountLocker) (q : Pending)
    (m' : Map SubAccountLocker) (q' : Pending) : Type 0 where
  pub kept : controlled key m' + owes key q' ≡ controlled key m + owes key q
  pub added : exporting key m' + adds key q ≡ exporting key m + adds key q'
  pub fit : IsFit q'

module _ (self : AccountId) (key a : Text) (cb : Callback) (m m' : Map SubAccountLocker) where
  transfer-Balances :
      (k : PublicKey)
      → IsPaired (Call.transfer_key a k) cb
      → execute self (Call.transfer_key a k) m ≡ some m'
      → Balances key m
          (Pending.asked (some (Call.transfer_key a k)) cb)
          m'
          (Pending.answered true cb)
  unfolding SubAccountLocker.transfer assert_registry assert_held
  transfer-Balances k paired h = elim (Option-cases (get a m)) [
    | inl e ↦ absurd (ground arith)
    | inr (l, e) ↦ ground (arith, eq_iff a key, get-insert a key (record l { owner_key = k }) m)
  ]

  delete-Balances :
      (d : AccountId)
      → IsPaired (Call.finalize_delete a d) cb
      → execute self (Call.finalize_delete a d) m ≡ some m'
      → Balances key m
          (Pending.asked (some (Call.finalize_delete a d)) cb)
          m'
          (Pending.answered true cb)
  unfolding SubAccountLocker.finalize_delete assert_registry assert_held
  delete-Balances d paired h = elim (Option-cases (get a m)) [
    | inl e ↦ absurd (ground arith)
    | inr (l, e) ↦ ground (arith, eq_iff a key, get-remove a key m)
  ]

  export-Balances :
      IsPaired (Call.export a) cb
      → execute self (Call.export a) m ≡ some m'
      → Balances key m (Pending.asked (some (Call.export a)) cb) m' (Pending.adding a cb)
  unfolding SubAccountLocker.export assert_registry assert_held
  export-Balances paired h = elim (Option-cases (get a m)) [
    | inl e ↦ absurd (ground arith)
    | inr (l, e) ↦
        ground (arith, eq_iff a key, get-insert a key (record l { state = SubState.exporting }) m)
  ]

pub executed-Balances :
    (self : AccountId) (key : Text) (c : Call) (cb : Callback) (m m' : Map SubAccountLocker)
    → is_creation c ≡ false
    → IsPaired c cb
    → execute self c m ≡ some m'
    → Balances key m (Pending.asked (some c) cb) m' (after_execution c cb)
executed-Balances self key (Call.create_sub_account t n k d) cb m m' u paired h = absurd cc
executed-Balances self key (Call.transfer_key a k) cb m m' u paired h =
    transfer-Balances self key a cb m m' k paired h
executed-Balances self key (Call.finalize_delete a d) cb m m' u paired h =
    delete-Balances self key a cb m m' d paired h
executed-Balances self key (Call.export a) cb m m' u paired h =
    export-Balances self key a cb m m' paired h
executed-Balances self key _ cb m m' u paired h = ground arith

-- What a manager creates at a TLA is the account of the name, with a locker that holds it.
creation :
    (env : Manager.Env) (tla name : Text) (k : PublicKey) (mg : TlaManager) (b : Batch)
    (l : SubAccountLocker)
    → env.current ≡ tla
    → create_sub_account env name k mg ≡ ok b
    → lockers b.actions ≡ l ∷ []
    → (b.receiver ≡ sub_account_key tla name) × (l.state ≡ SubState.held)
unfolding create_sub_account
creation env tla name k mg b l e h one = ground arith

pub created-Balances :
    (key tla name : Text) (k : PublicKey) (deposit : ℕ) (cb : Callback) (env : Manager.Env)
    (mg : TlaManager) (b : Batch) (l : SubAccountLocker) (m : Map SubAccountLocker)
    → IsPaired (Call.create_sub_account tla name k deposit) cb
    → env.current ≡ tla
    → create_sub_account env name k mg ≡ ok b
    → lockers b.actions ≡ l ∷ []
    → contains_key b.receiver m ≡ false
    → Balances key m
        (Pending.asked (some (Call.create_sub_account tla name k deposit)) cb)
        (insert b.receiver l m)
        (Pending.answered true cb)
unfolding contains_key
created-Balances key tla name k deposit cb env mg b l m paired at h one new_one =
    let (there, held) = creation env tla name k mg b l at h one in
    ground (
      arith,
      there,
      held,
      eq_iff (sub_account_key tla name) key,
      eq_iff b.receiver key,
      get-insert b.receiver key l m,
    )

pub added-Balances :
    (key a : Text) (cb : Callback) (l : SubAccountLocker) (m : Map SubAccountLocker)
    → get a m ≡ some l
    → l.state ≡ SubState.exporting
    → IsFit (Pending.adding a cb)
    → Balances key m
        (Pending.adding a cb)
        (insert a (on_export_resolved true l) m)
        (Pending.answered true cb)
unfolding on_export_resolved
added-Balances key a cb l m e busy fit =
    ground (arith, eq_iff a key, get-insert a key (record l { state = SubState.exported }) m)

pub failed-Balances :
    (key : Text) (c : Option Call) (cb : Callback) (m : Map SubAccountLocker)
    → IsFit (Pending.asked c cb)
    → Balances key m (Pending.asked c cb) m (Pending.answered false cb)
failed-Balances key none cb m fit = absurd fit
failed-Balances key (some c) cb m fit = ground arith

pub departed-controlled :
    (key a : Text) (l : SubAccountLocker) (m : Map SubAccountLocker)
    → get a m ≡ some l
    → l.state ≡ SubState.exported
    → (controlled key (remove a m) ≡ controlled key m)
      × (exporting key (remove a m) ≡ exporting key m)
departed-controlled key a l m e gone = ground (arith, eq_iff a key, get-remove a key m)
