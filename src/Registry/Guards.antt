-- ===== src/Registry/Guards.antt =====
-- The guards and the refund queue of lib.rs, which all handlers use.
use hos_tla.Base.{
  ℕ, ◌-◌, not, Result, err_if, nat_eq, ltb, if◌then◌else◌, unwrap_or, add_u128, mul_u128,
}
use hos_tla.Base.Maps.{get, insert}
use hos_tla.Base.Sets.{contains}
use hos_tla.Types.{AccountId}
use hos_tla.Registry.Errors.{ContractError}
use hos_tla.Registry.State.{Env, Registry}

unfoldable pub assert_admin : Env → Registry → Result ContractError (Unit {0})
assert_admin env s = err_if (not (contains env.predecessor s.admins)) ContractError.only_admin

unfoldable pub assert_not_paused : Registry → Result ContractError (Unit {0})
assert_not_paused s = err_if s.paused ContractError.paused

unfoldable pub assert_one_yocto : Env → Result ContractError (Unit {0})
assert_one_yocto env = err_if (not (nat_eq env.attached_deposit 1)) ContractError.requires_one_yocto

unfoldable pub add_pending_refund : AccountId → ℕ → Registry → Registry
add_pending_refund account amount s =
    let existing = unwrap_or 0 (get account s.pending_refunds) in
    record s {
      pending_refunds = insert account (add_u128 existing amount) s.pending_refunds;
      total_pending_refunds = add_u128 s.total_pending_refunds amount;
    }

-- `if excess > 0 { self.add_pending_refund(account, excess); }`
unfoldable pub refund_excess : AccountId → ℕ → Registry → Registry
unfolding add_pending_refund
refund_excess account excess s = if ltb 0 excess then add_pending_refund account excess s else s

unfoldable pub available_balance : Env → ℕ
available_balance env = env.account_balance - mul_u128 env.storage_byte_cost env.storage_usage
