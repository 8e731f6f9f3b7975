-- ===== src/Logs/Errors.antt =====
-- contracts/tla-registry/src/error.rs: the text that an error panics with.
use hos_tla.Base.{Option, [], ◌∷◌, Text, text, unwrap_or}
use hos_tla.Types.Names.{NameInvalidReason}
use hos_tla.Registry.{ContractError}
use hos_tla.Logs.Values.{Value, Object}

-- `rename_all = "snake_case"`.
abbrev pub reason_code : NameInvalidReason → Text
reason_code NameInvalidReason.length_out_of_bounds = text "length_out_of_bounds"
reason_code NameInvalidReason.disallowed_character = text "disallowed_character"
reason_code NameInvalidReason.edge_separator = text "edge_separator"

-- The tag that `tag = "code", rename_all = "snake_case"` gives each error.
unfoldable pub error_code : ContractError → Text
error_code ContractError.only_admin = text "only_admin"
error_code ContractError.only_licensee = text "only_licensee"
error_code ContractError.only_owner = text "only_owner"
error_code ContractError.paused = text "paused"
error_code ContractError.no_pending_refund = text "no_pending_refund"
error_code ContractError.tla_not_found = text "tla_not_found"
error_code ContractError.tla_already_registered = text "tla_already_registered"
error_code ContractError.tla_not_in_registered_state = text "tla_not_in_registered_state"
error_code ContractError.tla_not_active = text "tla_not_active"
error_code ContractError.tla_not_suspended = text "tla_not_suspended"
error_code ContractError.tla_not_accepting_rentals = text "tla_not_accepting_rentals"
error_code ContractError.tla_past_grace_period = text "tla_past_grace_period"
error_code ContractError.business_tla_requires_licensee = text "business_tla_requires_licensee"
error_code ContractError.business_tla_missing_licensee = text "business_tla_missing_licensee"
error_code ContractError.wrong_activation_endpoint = text "wrong_activation_endpoint"
error_code ContractError.sub_account_not_found = text "sub_account_not_found"
error_code ContractError.sub_account_name_taken = text "sub_account_name_taken"
error_code ContractError.sub_account_past_grace_period = text "sub_account_past_grace_period"
error_code ContractError.sub_account_not_reclaimable = text "sub_account_not_reclaimable"
error_code ContractError.main_wallet_equals_sub_account = text "main_wallet_equals_sub_account"
error_code ContractError.invalid_sub_account_id = text "invalid_sub_account_id"
error_code (ContractError.invalid_name _) = text "invalid_name"
error_code ContractError.insufficient_payment = text "insufficient_payment"
error_code ContractError.insufficient_revenue = text "insufficient_revenue"
error_code ContractError.withdrawal_amount_zero = text "withdrawal_amount_zero"
error_code ContractError.token_not_in_allowlist = text "token_not_in_allowlist"
error_code ContractError.allowlist_full = text "allowlist_full"
error_code ContractError.allowlist_length_mismatch = text "allowlist_length_mismatch"
error_code ContractError.invalid_ft_balance_response = text "invalid_ft_balance_response"
error_code ContractError.all_rent_tiers_zero = text "all_rent_tiers_zero"
error_code ContractError.creation_deposit_zero = text "creation_deposit_zero"
error_code ContractError.cannot_remove_last_admin = text "cannot_remove_last_admin"
error_code ContractError.already_at_current_version = text "already_at_current_version"
error_code ContractError.sub_account_is_mother = text "sub_account_is_mother"
error_code ContractError.mother_is_reclaimable = text "mother_is_reclaimable"
error_code ContractError.mother_not_set = text "mother_not_set"
error_code ContractError.max_business_subs_reached = text "max_business_subs_reached"
error_code ContractError.no_retraction_scheduled = text "no_retraction_scheduled"
error_code ContractError.retraction_already_scheduled = text "retraction_already_scheduled"
error_code ContractError.retraction_already_elapsed = text "retraction_already_elapsed"
error_code ContractError.retraction_pending = text "retraction_pending"
error_code ContractError.not_business_tla = text "not_business_tla"
error_code ContractError.requires_one_yocto = text "requires_one_yocto"
error_code ContractError.insufficient_contract_balance = text "insufficient_contract_balance"
error_code ContractError.not_listed = text "not_listed"
error_code ContractError.sale_in_progress = text "sale_in_progress"
error_code ContractError.sub_account_not_sellable = text "sub_account_not_sellable"
error_code ContractError.price_not_met = text "price_not_met"
error_code ContractError.invalid_price = text "invalid_price"
error_code ContractError.no_accepted_offer = text "no_accepted_offer"
error_code ContractError.invalid_commission_rate = text "invalid_commission_rate"

unfoldable pub error_data : ContractError → Object
unfolding error_code
error_data (ContractError.invalid_name reason) =
    (text "code", Value.word (error_code (ContractError.invalid_name reason)))
    ∷ (text "reason", Value.word (reason_code reason))
    ∷ []
error_data e = (text "code", Value.word (error_code e)) ∷ []

-- `FunctionError::panic`. `to_string` is the one of serde_json.
unfoldable pub panic_text : (Object → Option Text) → ContractError → Text
unfolding error_data
panic_text to_string e =
    unwrap_or (text "{\"code\":\"serialization_failure\"}") (to_string (error_data e))
