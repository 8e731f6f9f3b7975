-- ===== src/Core.antt =====
-- contracts/tla-registry/src/lib.rs: pausing, the refund queue and its claims, migration.
use hos_tla.Base.{
  ℕ, ◌-◌, Bool, true, false, nat_eq, ltb, leb, if◌then◌else◌, unwrap_or, Result, ok, err_if, ◌>>◌,
}
use hos_tla.Base.Maps.{get, remove}
use hos_tla.Types.{AccountId}
use hos_tla.Registry.{
  ContractError, Event, BlockReason, Call, Callback, one_call, then_call, Env, Registry, Outcome,
  emit, contract_version, assert_admin, add_pending_refund, available_balance,
}

unfoldable pub pause : Env → Registry → Result ContractError Registry
unfolding assert_admin
pause env s = do
  assert_admin env s
  ok (emit (Event.contract_paused env.predecessor) (record s { paused = true }))

unfoldable pub unpause : Env → Registry → Result ContractError Registry
unfolding assert_admin
unpause env s = do
  assert_admin env s
  ok (emit (Event.contract_unpaused env.predecessor) (record s { paused = false }))

abbrev gas_for_claim_refund_cb : ℕ
gas_for_claim_refund_cb = 10

unfoldable pub claim_refund : Env → Registry → Result ContractError Outcome
unfolding available_balance
claim_refund env s = do
  let caller = env.predecessor
  let amount = unwrap_or 0 (get caller s.pending_refunds)
  err_if (nat_eq amount 0) ContractError.no_pending_refund
  err_if (ltb (available_balance env) amount) ContractError.insufficient_contract_balance
  ok (record {
    state = record s {
      pending_refunds = remove caller s.pending_refunds;
      total_pending_refunds = s.total_pending_refunds - amount;
    };
    promise =
        then_call (one_call (Call.transfer caller amount) 0)
          (Callback.on_claim_refund_settled caller amount) gas_for_claim_refund_cb;
  })

-- `success` is `is_promise_success()`.
unfoldable pub on_claim_refund_settled : Bool → AccountId → ℕ → Registry → Registry
unfolding add_pending_refund
on_claim_refund_settled success caller amount s =
    if success
    then s
    else emit (Event.refund_pending caller amount BlockReason.transfer_failed)
        (add_pending_refund caller amount s)

unfoldable pub migrate : Env → Registry → Result ContractError Registry
unfolding assert_admin
migrate env s = do
  assert_admin env s
  err_if (leb contract_version s.version) ContractError.already_at_current_version
  ok (record s { version = contract_version })

unfoldable pub get_pending_refund : AccountId → Registry → ℕ
get_pending_refund account s = unwrap_or 0 (get account s.pending_refunds)

unfoldable pub get_total_pending_refunds : Registry → ℕ
get_total_pending_refunds s = s.total_pending_refunds

unfoldable pub get_version : Registry → ℕ
get_version s = s.version

unfoldable pub is_paused : Registry → Bool
is_paused s = s.paused
