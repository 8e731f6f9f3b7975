-- ===== src/SubAccountLocker.antt =====
-- contracts/sub-account-locker: the contract at each rented account, which holds it without keys
-- until it is exported.
pub mod Custody
use hos_tla.Base.{
  ◌==◌, ℕ, Bool, not, Option, none, some, nat_eq, if◌then◌else◌, Result, ok, err, err_if, ◌>>◌,
}
use hos_tla.Types.{AccountId, PublicKey}

pub data LockerError : Type 0 where
  unauthorized export_in_progress already_exported : LockerError

pub data SubState : Type 0 where
  held exporting exported : SubState

pub record SubAccountLocker : Type 0 where
  pub registry : AccountId
  pub owner_key : PublicKey
  pub state : SubState

-- What a method asks the network to do. The callback that follows, if any, is named beside it.
pub data Request : Type 0 where
  -- `Promise::new(current).add_full_access_key(key)`, then `on_export_resolved`
  add_full_access_key : PublicKey → Request
  -- `Promise::new(current).delete_account(destination)`
  delete_account : AccountId → Request
  -- `ft_balance_of(current)` at the token, then `after_balance_query`
  query_balance : AccountId → AccountId → Request
  -- `storage_deposit(destination, true)` at the token, then `after_storage_deposit`
  storage_deposit : AccountId → AccountId → ℕ → Request
  -- `ft_transfer(destination, amount)` at the token, with one yocto
  ft_transfer : AccountId → AccountId → ℕ → Request

abbrev pub new : AccountId → PublicKey → SubAccountLocker
new registry owner_key = record {
  registry = registry;
  owner_key = owner_key;
  state = SubState.held;
}

unfoldable pub assert_registry : AccountId → SubAccountLocker → Result LockerError (Unit {0})
assert_registry predecessor l = err_if (not (predecessor == l.registry)) LockerError.unauthorized

abbrev check_held : SubState → Result LockerError (Unit {0})
check_held SubState.held = ok tt
check_held SubState.exporting = err LockerError.export_in_progress
check_held SubState.exported = err LockerError.already_exported

unfoldable pub assert_held : SubAccountLocker → Result LockerError (Unit {0})
assert_held l = check_held l.state

unfoldable pub export :
    AccountId → SubAccountLocker → Result LockerError (SubAccountLocker × Request)
unfolding assert_registry assert_held
export predecessor l = do
  assert_registry predecessor l
  assert_held l
  ok (record l { state = SubState.exporting }, Request.add_full_access_key l.owner_key)

unfoldable pub on_export_resolved : Bool → SubAccountLocker → SubAccountLocker
on_export_resolved success l =
    if success then record l { state = SubState.exported } else record l { state = SubState.held }

-- How the callback of an export ends, and with it the promise that `export` returns: it has no error
-- result, so it returns normally, however the addition of the key ended.
unfoldable pub export_ending : Bool → SubAccountLocker → Result LockerError SubAccountLocker
unfolding on_export_resolved
export_ending success l = ok (on_export_resolved success l)

unfoldable pub transfer :
    AccountId → PublicKey → SubAccountLocker → Result LockerError SubAccountLocker
unfolding assert_registry assert_held
transfer predecessor new_owner_key l = do
  assert_registry predecessor l
  assert_held l
  ok (record l { owner_key = new_owner_key })

unfoldable pub sweep_ft :
    AccountId → AccountId → AccountId → SubAccountLocker → Result LockerError Request
unfolding assert_registry assert_held
sweep_ft predecessor ft destination l = do
  assert_registry predecessor l
  assert_held l
  ok (Request.query_balance ft destination)

-- `balance` is the token's answer, `none` where the query failed.
unfoldable pub after_balance_query : AccountId → AccountId → Option ℕ → Option Request
after_balance_query ft destination none = none
after_balance_query ft destination (some balance) =
    if nat_eq balance 0 then none else some (Request.storage_deposit ft destination balance)

unfoldable pub after_storage_deposit : Bool → AccountId → AccountId → ℕ → Option Request
after_storage_deposit success ft destination amount =
    if not success then none else some (Request.ft_transfer ft destination amount)

unfoldable pub finalize_delete :
    AccountId → AccountId → SubAccountLocker → Result LockerError Request
unfolding assert_registry assert_held
finalize_delete predecessor destination l = do
  assert_registry predecessor l
  assert_held l
  ok (Request.delete_account destination)

abbrev locker_version : ℕ
locker_version = 3

pub record LockerConfig : Type 0 where
  pub registry : AccountId
  pub locker : AccountId
  pub owner_key : PublicKey
  pub state : SubState
  pub version : ℕ

-- `current` is the account that the locker stands at.
unfoldable pub get_config : AccountId → SubAccountLocker → LockerConfig
get_config current l = record {
  registry = l.registry;
  locker = current;
  owner_key = l.owner_key;
  state = l.state;
  version = locker_version;
}
