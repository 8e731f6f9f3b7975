-- ===== src/Registry.antt =====
-- What the handlers of contracts/tla-registry share: the state of lib.rs, the errors of error.rs,
-- the events of events.rs, the promises that the handlers return, and the guards and the refund
-- queue of lib.rs. A handler takes the environment of its call, its arguments and the state; an
-- error result means that the call panics and that nothing of it is kept.
mod Errors
mod Events
mod Promises
mod State
mod Guards
pub use Errors.{ContractError}
pub use Events.{Event, BlockReason, MotherSource}
pub use Promises.{
  Call, Callback, PendingBuy, Promise, one_call, then_call, static_gas, gas_of_calls, PromiseResult,
}
pub use State.{Env, Registry, contract_version, new, emit, Outcome}
unfoldable pub use Guards.{
  assert_admin, assert_not_paused, assert_one_yocto, add_pending_refund, available_balance,
  refund_excess,
}
