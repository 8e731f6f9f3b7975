-- ===== src/Registry/State.antt =====
-- The registry's state, and what a call reads from the network.
use hos_tla.Base.{ℕ, Bool, false, Option, List, [], ◌∷◌, Text}
use hos_tla.Base.Maps.{Map}
use hos_tla.Types.{AccountId, TlaEntry, SubAccountEntry, FeeConfig, Listing, AcceptedOffer}
use hos_tla.Fees.{default_fee_config}
use hos_tla.Registry.Events.{Event}
use hos_tla.Registry.Promises.{Promise}

-- `env::…` during one call, and the two functions of the SDK that the handlers rely on.
pub record Env : Type 0 where
  pub predecessor : AccountId
  pub attached_deposit : ℕ
  pub block_timestamp : ℕ
  pub account_balance : ℕ
  pub storage_byte_cost : ℕ
  pub storage_usage : ℕ
  -- whether `parse::<AccountId>()` accepts a text, which then is the account's id
  pub is_account_id : Text → Bool
  -- `serde_json::from_slice::<U128>`
  pub from_slice : Text → Option ℕ

-- The fields of `TlaRegistry`; `log` holds what has been emitted, the latest first, and is no
-- field of the struct.
pub record Registry : Type 0 where
  pub tlas : Map TlaEntry
  pub sub_accounts : Map SubAccountEntry
  pub admins : List AccountId
  pub fee_config : FeeConfig
  pub total_revenue : ℕ
  pub sub_account_count : ℕ
  pub paused : Bool
  pub version : ℕ
  pub pending_refunds : Map ℕ
  pub total_pending_refunds : ℕ
  pub ft_allowlist : List AccountId
  pub nft_allowlist : List AccountId
  pub mothers : Map AccountId
  pub mother_use_count : Map ℕ
  pub business_sub_count : Map ℕ
  pub business_sub_cap_override : Map ℕ
  pub listings : Map Listing
  pub accepted_offers : Map AcceptedOffer
  pub log : List Event

-- The state after a call that returns a promise, and the promise.
pub record Outcome : Type 0 where
  pub state : Registry
  pub promise : Promise

abbrev pub contract_version : ℕ
contract_version = 6

-- `TlaRegistry::new`
abbrev pub new : AccountId → Registry
new admin = record {
  tlas = [];
  sub_accounts = [];
  admins = admin ∷ [];
  fee_config = default_fee_config;
  total_revenue = 0;
  sub_account_count = 0;
  paused = false;
  version = contract_version;
  pending_refunds = [];
  total_pending_refunds = 0;
  ft_allowlist = [];
  nft_allowlist = [];
  mothers = [];
  mother_use_count = [];
  business_sub_count = [];
  business_sub_cap_override = [];
  listings = [];
  accepted_offers = [];
  log = [];
}

-- `events::emit`
abbrev pub emit : Event → Registry → Registry
emit e s = record s { log = e ∷ s.log }
