-- ===== src/Registry/Errors.antt =====
-- contracts/tla-registry/src/error.rs
use hos_tla.Types.Names.{NameInvalidReason}

pub data ContractError : Type 0 where
  only_admin only_licensee only_owner paused no_pending_refund : ContractError
  tla_not_found tla_already_registered tla_not_in_registered_state : ContractError
  tla_not_active tla_not_suspended tla_not_accepting_rentals : ContractError
  tla_past_grace_period business_tla_requires_licensee : ContractError
  business_tla_missing_licensee wrong_activation_endpoint : ContractError
  sub_account_not_found sub_account_name_taken sub_account_past_grace_period : ContractError
  sub_account_not_reclaimable main_wallet_equals_sub_account : ContractError
  invalid_sub_account_id : ContractError
  invalid_name : NameInvalidReason → ContractError
  insufficient_payment insufficient_revenue withdrawal_amount_zero : ContractError
  token_not_in_allowlist allowlist_full allowlist_length_mismatch : ContractError
  invalid_ft_balance_response all_rent_tiers_zero creation_deposit_zero : ContractError
  cannot_remove_last_admin already_at_current_version sub_account_is_mother : ContractError
  mother_is_reclaimable mother_not_set max_business_subs_reached : ContractError
  no_retraction_scheduled retraction_already_scheduled : ContractError
  retraction_already_elapsed retraction_pending not_business_tla : ContractError
  requires_one_yocto insufficient_contract_balance not_listed sale_in_progress : ContractError
  sub_account_not_sellable price_not_met invalid_price no_accepted_offer : ContractError
  invalid_commission_rate : ContractError
