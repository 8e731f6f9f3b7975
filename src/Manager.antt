-- ===== src/Manager.antt =====
-- contracts/tla-manager: the contract at each TLA, which creates the accounts below it. The bytes
-- of the bundled locker are left out.
pub mod Creation
use hos_tla.Base.{◌==◌, ℕ, Bool, not, Text, List, [], ◌∷◌, Result, ok, err_if, ◌>>◌}
use hos_tla.Types.{AccountId, PublicKey}
use hos_tla.Types.Names.{sub_account_key}

pub data ManagerError : Type 0 where
  unauthorized invalid_sub_account_name : ManagerError

pub record TlaManager : Type 0 where
  pub registry : AccountId

-- `env::…`, and the SDK's parser of account ids.
pub record Env : Type 0 where
  pub predecessor : AccountId
  pub current : AccountId
  pub attached_deposit : ℕ
  pub is_account_id : Text → Bool

-- The actions of the promise on the new account, in their order. `function_call` is the locker's
-- `new(registry, owner_key)`.
pub data Action : Type 0 where
  create_account deploy_locker : Action
  transfer : ℕ → Action
  add_full_access_key : PublicKey → Action
  init_locker : AccountId → PublicKey → Action

-- The account that the actions run on, and the actions.
pub record Batch : Type 0 where
  pub receiver : AccountId
  pub actions : List Action

abbrev pub new : AccountId → TlaManager
new registry = record { registry = registry }

unfoldable pub assert_registry : Env → TlaManager → Result ManagerError (Unit {0})
assert_registry env m = err_if (not (env.predecessor == m.registry)) ManagerError.unauthorized

unfoldable pub create_sub_account : Env → Text → PublicKey → TlaManager → Result ManagerError Batch
unfolding assert_registry
create_sub_account env name owner_key m = do
  assert_registry env m
  let sub_account = sub_account_key env.current name
  err_if (not (env.is_account_id sub_account)) ManagerError.invalid_sub_account_name
  ok (record {
    receiver = sub_account;
    actions =
        Action.create_account
        ∷ Action.transfer env.attached_deposit
        ∷ Action.deploy_locker
        ∷ Action.init_locker m.registry owner_key
        ∷ [];
  })

abbrev version : ℕ
version = 5

pub record ManagerConfig : Type 0 where
  pub registry : AccountId
  pub tla : AccountId
  pub version : ℕ

unfoldable pub get_config : Env → TlaManager → ManagerConfig
get_config env m = record { registry = m.registry; tla = env.current; version = version }
