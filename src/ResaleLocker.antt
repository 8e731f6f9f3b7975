-- ===== src/ResaleLocker.antt =====
-- contracts/resale-locker: the contract that a seller puts on a `.near` account, until the
-- registry has one key added to it.
pub mod OneShot
use hos_tla.Base.{ℕ, ◌==◌, Bool, not, if◌then◌else◌, Result, ok, err, err_if, ◌>>◌}
use hos_tla.Types.{AccountId, PublicKey}

pub data ResaleLockerError : Type 0 where
  unauthorized already_settled settlement_in_progress : ResaleLockerError

pub data LockState : Type 0 where
  active settling settled : LockState

pub record ResaleLocker : Type 0 where
  pub registry : AccountId
  pub recovery_key : PublicKey
  pub state : LockState

-- `Promise::new(current).add_full_access_key(key)`, then `on_settle_resolved`.
pub data Request : Type 0 where
  add_full_access_key : PublicKey → Request

abbrev pub new : AccountId → PublicKey → ResaleLocker
new registry recovery_key = record {
  registry = registry;
  recovery_key = recovery_key;
  state = LockState.active;
}

unfoldable pub assert_registry : AccountId → ResaleLocker → Result ResaleLockerError (Unit {0})
assert_registry predecessor l =
    err_if (not (predecessor == l.registry)) ResaleLockerError.unauthorized

abbrev check_active : LockState → Result ResaleLockerError (Unit {0})
check_active LockState.active = ok tt
check_active LockState.settling = err ResaleLockerError.settlement_in_progress
check_active LockState.settled = err ResaleLockerError.already_settled

unfoldable pub assert_active : ResaleLocker → Result ResaleLockerError (Unit {0})
assert_active l = check_active l.state

unfoldable pub unlock :
    AccountId → PublicKey → ResaleLocker → Result ResaleLockerError (ResaleLocker × Request)
unfolding assert_registry assert_active
unlock predecessor buyer_key l = do
  assert_registry predecessor l
  assert_active l
  ok (record l { state = LockState.settling }, Request.add_full_access_key buyer_key)

unfoldable pub abort : AccountId → ResaleLocker → Result ResaleLockerError (ResaleLocker × Request)
unfolding assert_registry assert_active
abort predecessor l = do
  assert_registry predecessor l
  assert_active l
  ok (record l { state = LockState.settling }, Request.add_full_access_key l.recovery_key)

unfoldable pub on_settle_resolved : Bool → ResaleLocker → ResaleLocker
on_settle_resolved success l =
    if success
    then record l { state = LockState.settled }
    else record l { state = LockState.active }

abbrev locker_version : ℕ
locker_version = 2

pub record ResaleLockerConfig : Type 0 where
  pub account : AccountId
  pub registry : AccountId
  pub recovery_key : PublicKey
  pub state : LockState
  pub version : ℕ

-- `current` is the account that the locker stands at.
unfoldable pub get_config : AccountId → ResaleLocker → ResaleLockerConfig
get_config current l = record {
  account = current;
  registry = l.registry;
  recovery_key = l.recovery_key;
  state = l.state;
  version = locker_version;
}
