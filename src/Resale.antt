-- ===== src/Resale.antt =====
-- contracts/tla-registry/src/resale.rs: the admin's requests to a resale locker, and what a client
-- reads of the bundled one.
pub mod Digest
use hos_tla.Base.{
  ℕ, ◌+◌, ◌-◌, ◌/◌, ◌%◌, List, [], ◌∷◌, Text, length, ltb, if◌then◌else◌, Result, ok, ◌>>◌,
}
use hos_tla.Types.{AccountId, PublicKey}
use hos_tla.Registry.{
  ContractError, Event, Call, one_call, Env, Registry, Outcome, emit, assert_admin,
}

abbrev gas_for_resale_dispatch : ℕ
gas_for_resale_dispatch = 15

unfoldable pub resale_unlock : Env → AccountId → PublicKey → Registry → Result ContractError Outcome
unfolding assert_admin
resale_unlock env account buyer_key s = do
  assert_admin env s
  ok (record {
    state = emit (Event.resale_unlock_requested account env.predecessor) s;
    promise = one_call (Call.unlock account buyer_key) gas_for_resale_dispatch;
  })

unfoldable pub resale_abort : Env → AccountId → Registry → Result ContractError Outcome
unfolding assert_admin
resale_abort env account s = do
  assert_admin env s
  ok (record {
    state = emit (Event.resale_abort_requested account env.predecessor) s;
    promise = one_call (Call.abort account) gas_for_resale_dispatch;
  })

abbrev hex_digit : ℕ → ℕ
hex_digit d = if ltb d 10 then b'0' + d else b'a' + (d - 10)

unfoldable pub hex_of : List ℕ → Text
hex_of [] = []
hex_of (byte ∷ rest) = hex_digit (byte / 16) ∷ hex_digit (byte % 16) ∷ hex_of rest

-- The bundled locker's bytes are a file of the build, and `sha256` is the network's: both are
-- parameters here.
module _ (resale_locker_wasm : List ℕ) (sha256 : List ℕ → List ℕ) where
  unfoldable pub get_resale_locker_wasm : List ℕ
  get_resale_locker_wasm = resale_locker_wasm

  unfoldable pub get_resale_locker_size : ℕ
  get_resale_locker_size = length resale_locker_wasm

  -- `format!("{:02x}", byte)` of each byte.
  unfoldable pub get_resale_locker_sha256 : Text
  unfolding hex_of
  get_resale_locker_sha256 = hex_of (sha256 resale_locker_wasm)
