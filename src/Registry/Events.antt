-- ===== src/Registry/Events.antt =====
-- contracts/tla-registry/src/events.rs: one constructor for each event that is emitted, with the
-- fields of its struct in their order. Amounts are kept as numbers here, and printed in Logs.
use hos_tla.Base.{ℕ, Option, Text}
use hos_tla.Types.{AccountId, TlaType, PremiumCategory}

-- The texts that stand in `reason`.
pub data BlockReason : Type 0 where
  balance : ℕ → BlockReason
  balance_query_failed balance_query_unverifiable balance_unverifiable : BlockReason
  result_count_mismatch invalid_sub_account_id : BlockReason
  transfer_failed creation_failed : BlockReason

pub data MotherSource : Type 0 where
  explicit default : MotherSource

pub data Event : Type 0 where
  contract_paused contract_unpaused fee_config_updated : AccountId → Event
  tla_registered : AccountId → TlaType → PremiumCategory → Option AccountId → Event
  tla_activated : AccountId → ℕ → ℕ → Event
  sub_account_rented : Text → AccountId → AccountId → ℕ → ℕ → Event
  tla_renewed sub_account_renewed : Text → ℕ → ℕ → Event
  withdrawal_queued : ℕ → AccountId → Event
  admin_added admin_removed : AccountId → AccountId → Event
  tla_suspended tla_unsuspended : AccountId → AccountId → Event
  refund_pending : AccountId → ℕ → BlockReason → Event
  sub_account_reclaimed : Text → AccountId → AccountId → Event
  sub_account_exported : Text → AccountId → Event
  ft_allowlist_added ft_allowlist_removed : AccountId → AccountId → Event
  nft_allowlist_added nft_allowlist_removed : AccountId → AccountId → Event
  main_wallet_updated : Text → AccountId → Event
  reclaim_finalize_blocked : Text → AccountId → BlockReason → Event
  mother_set : AccountId → AccountId → MotherSource → Event
  mother_cleared : AccountId → AccountId → AccountId → Event
  sub_account_retraction_scheduled : Text → ℕ → AccountId → Event
  sub_account_retraction_canceled : Text → AccountId → Event
  business_sub_cap_set : AccountId → Option ℕ → AccountId → Event
  resale_unlock_requested resale_abort_requested : AccountId → AccountId → Event
  sub_account_listed : Text → ℕ → AccountId → Event
  sub_account_unlisted : Text → AccountId → Event
  offer_accepted : Text → AccountId → ℕ → AccountId → Event
  offer_revoked : Text → AccountId → Event
  sub_account_sold : Text → AccountId → AccountId → AccountId → ℕ → ℕ → ℕ → Event
  sub_account_sale_failed : Text → AccountId → Event
  sub_account_sale_blocked : Text → Text → BlockReason → Event
