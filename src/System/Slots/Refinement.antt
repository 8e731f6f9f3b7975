-- ===== src/System/Slots/Refinement.antt =====
-- The registry implements the machine of each name: calls and callbacks on one name.
use hos_tla.Base.{
  ℕ, ◌≡◌, refl, ap, Bool, true, false, Option, none, some, arith, Text, eq_iff, ok, Option-cases,
  Result-cases, inl, inr, add_u64, max,
}
use hos_tla.Base.Maps.{get, get-insert, get-remove}
use hos_tla.Types.{AccountId, PublicKey, SubAccountEntry, one_year_ns}
use hos_tla.Types.Names.{sub_account_key}
use hos_tla.Registry.{Callback, Promise, Registry, Env, Outcome}
use hos_tla.Business.{
  schedule_retraction, cancel_retraction, business_count_check_and_bump, decrement_if_business,
}
use hos_tla.Mother.{ensure_mother_default}
use hos_tla.Rental.{rent_sub_account, renew_sub_account, set_main_wallet, on_sub_account_created}
use hos_tla.Reclaim.{on_reclaim_finalized, on_export_settled, on_balances_checked}
use hos_tla.Marketplace.Sale.{
  clear_settling, on_sub_account_sold, on_buy_balances_checked, abort_sale,
}
use hos_tla.System.{Op, call, Ending, resolve}
use hos_tla.System.Slots.{Action, perform, MayPerform, action_of, action_after}

-- A step of the registry is the action on the slot, and the caller may do it.
abbrev pub Refines : AccountId → ℕ → Text → Option Action → Registry → Registry → Type 0
Refines who now key a s t =
    (get key t.sub_accounts ≡ perform a (get key s.sub_accounts))
    × MayPerform who now a (get key s.sub_accounts)

abbrev is_slot_op : Op → Bool
is_slot_op (Op.rent_sub_account _ _ _ _) = true
is_slot_op (Op.renew_sub_account _ _) = true
is_slot_op (Op.set_main_wallet _ _ _) = true
is_slot_op (Op.schedule_retraction _ _) = true
is_slot_op (Op.cancel_retraction _ _) = true
is_slot_op _ = false

call-same_slots :
    (env : Env) (op : Op) (s t : Registry) (p : Option Promise)
    → is_slot_op op ≡ false
    → call env op s ≡ ok (t, p)
    → t.sub_accounts ≡ s.sub_accounts
unfolding call
call-same_slots env Op.pause s t p u h = ground arith
call-same_slots env _ s t p u h = ground arith

module _ (env : Env) (key tla name : Text) (s t : Registry) where
  wallet-Refines :
      (w : AccountId)
      → set_main_wallet env tla name w s ≡ ok t
      → Refines env.predecessor env.block_timestamp key
          (action_of env (Op.set_main_wallet tla name w) key)
          s
          t
  unfolding set_main_wallet
  wallet-Refines w h =
      let at = sub_account_key tla name in
      elim (Option-cases (get at s.sub_accounts)) [
        | inl e ↦ ground arith
        | inr (old, e) ↦ ground (
          arith,
          eq_iff at key,
          eq_iff env.predecessor old.owner,
          get-insert at key (record old { main_wallet = w }) s.sub_accounts,
        )
      ]

  renew-Refines :
      renew_sub_account env tla name s ≡ ok t
      → Refines env.predecessor env.block_timestamp key
          (action_of env (Op.renew_sub_account tla name) key)
          s
          t
  unfolding renew_sub_account
  renew-Refines h =
      let at = sub_account_key tla name in
      elim (Option-cases (get at s.sub_accounts)) [
        | inl e ↦ ground arith
        | inr (old, e) ↦
            let longer = add_u64 (max env.block_timestamp old.expires_at) one_year_ns in
            ground (
              arith,
              eq_iff at key,
              eq_iff env.predecessor old.owner,
              get-insert at key (record old { expires_at = longer }) s.sub_accounts,
            )
      ]

  retract-Refines :
      schedule_retraction env tla name s ≡ ok t
      → Refines env.predecessor env.block_timestamp key
          (action_of env (Op.schedule_retraction tla name) key)
          s
          t
  unfolding schedule_retraction
  retract-Refines h =
      let at = sub_account_key tla name in
      elim (Option-cases (get at s.sub_accounts)) [
        | inl e ↦ ground arith
        | inr (old, e) ↦ ground (
          arith,
          eq_iff at key,
          eq_iff env.predecessor old.owner,
          get-insert at key (record old { retraction_at = some env.block_timestamp })
              s.sub_accounts,
        )
      ]

  keep-Refines :
      cancel_retraction env tla name s ≡ ok t
      → Refines env.predecessor env.block_timestamp key
          (action_of env (Op.cancel_retraction tla name) key)
          s
          t
  unfolding cancel_retraction
  keep-Refines h =
      let at = sub_account_key tla name in
      elim (Option-cases (get at s.sub_accounts)) [
        | inl e ↦ ground arith
        | inr (old, e) ↦ ground (
          arith,
          eq_iff at key,
          eq_iff env.predecessor old.owner,
          get-insert at key (record old { retraction_at = none }) s.sub_accounts,
        )
      ]

rent-Refines :
    (env : Env) (key tla name : Text) (k : PublicKey) (w : AccountId) (s : Registry) (o : Outcome)
    → rent_sub_account env tla name k w s ≡ ok o
    → Refines env.predecessor env.block_timestamp key
        (action_of env (Op.rent_sub_account tla name k w) key)
        s
        o.state
unfolding rent_sub_account ensure_mother_default business_count_check_and_bump
rent-Refines env key tla name k w s o h =
    let at = sub_account_key tla name in
    let e : SubAccountEntry = record {
      owner = env.predecessor;
      tla_id = tla;
      main_wallet = w;
      rented_at = env.block_timestamp;
      expires_at = add_u64 env.block_timestamp one_year_ns;
      retraction_at = none;
    } in
    ground (arith, eq_iff at key, get-insert at key e s.sub_accounts)

-- Every call is, on every name, the action that it means, and the caller may do that.
pub call-Refines :
    (env : Env) (key : Text) (op : Op) (s t : Registry) (p : Option Promise)
    → call env op s ≡ ok (t, p)
    → Refines env.predecessor env.block_timestamp key (action_of env op key) s t
unfolding call
call-Refines env key (Op.rent_sub_account a n k w) s t p h =
    elim (Result-cases (rent_sub_account env a n k w s)) [
      | inr (c, e) ↦ absurd (ground arith)
      | inl (o, e) ↦
          let same : o.state ≡ t = ground arith in rw (← same) (rent-Refines env key a n k w s o e)
    ]
call-Refines env key (Op.renew_sub_account a n) s t p h =
    renew-Refines env key a n s t (ground arith)
call-Refines env key (Op.set_main_wallet a n w) s t p h =
    wallet-Refines env key a n s t w (ground arith)
call-Refines env key (Op.schedule_retraction a n) s t p h =
    retract-Refines env key a n s t (ground arith)
call-Refines env key (Op.cancel_retraction a n) s t p h =
    keep-Refines env key a n s t (ground arith)
call-Refines env key op s t p h = (ap (λ m. get key m) (call-same_slots env op s t p refl h), tt)

sold-slot :
    (key tla name : Text) (buyer : AccountId) (price deposit : ℕ) (success : Bool) (s : Registry)
    → get key (on_sub_account_sold success tla name buyer price deposit s).sub_accounts
      ≡ perform
          (action_after success (Callback.on_sub_account_sold tla name buyer price deposit) key)
          (get key s.sub_accounts)
unfolding on_sub_account_sold clear_settling
sold-slot key tla name buyer price deposit false s = ground arith
sold-slot key tla name buyer price deposit true s =
    let at = sub_account_key tla name in
    elim (Option-cases (get at s.sub_accounts)) [
      | inl e ↦ ground (arith, eq_iff at key)
      | inr (old, e) ↦ ground (
        arith,
        eq_iff at key,
        get-insert at key (record old { owner = buyer; main_wallet = buyer }) s.sub_accounts,
      )
    ]

-- Every callback is, on every name, the action that it means.
pub resolve-slot :
    (env : Env) (e : Ending) (key : Text) (cb : Callback) (s t : Registry) (p : Option Promise)
    → resolve env e cb s ≡ ok (t, p)
    → get key t.sub_accounts ≡ perform (action_after e.success cb key) (get key s.sub_accounts)
unfolding resolve on_sub_account_created decrement_if_business on_reclaim_finalized
    on_export_settled on_balances_checked on_buy_balances_checked abort_sale
resolve-slot env e key (Callback.on_sub_account_created a n who r d) s t p h =
    let at = sub_account_key a n in ground (arith, eq_iff at key, get-remove at key s.sub_accounts)
resolve-slot env e key (Callback.on_reclaim_finalized a n d) s t p h =
    let at = sub_account_key a n in ground (arith, eq_iff at key, get-remove at key s.sub_accounts)
resolve-slot env e key (Callback.on_export_settled a n) s t p h =
    let at = sub_account_key a n in ground (arith, eq_iff at key, get-remove at key s.sub_accounts)
resolve-slot env e key (Callback.on_sub_account_sold a n buyer d q) s t p h =
    let same : on_sub_account_sold e.success a n buyer d q s ≡ t = ground arith in
    rw (← same) (sold-slot key a n buyer d q e.success s)
resolve-slot env e key _ s t p h = ground arith
