-- ===== src/Logs/ErrorReader.antt =====
-- A client tells the errors apart by their texts.
use hos_tla.Base.{
  ◌==◌, ◌≡◌, refl, ap, arith, Option, none, some, List, [], ◌∷◌, Text, text, text_eq, if◌then◌else◌,
}
use hos_tla.Types.Names.{NameInvalidReason}
use hos_tla.Registry.{ContractError}
use hos_tla.Logs.Values.{Value, values}
use hos_tla.Logs.Errors.{reason_code, error_data}

abbrev read_reason_code : Text → NameInvalidReason
read_reason_code s =
    if s == text "length_out_of_bounds"
    then NameInvalidReason.length_out_of_bounds
    else if s == text "disallowed_character"
    then NameInvalidReason.disallowed_character
    else NameInvalidReason.edge_separator

unfoldable pub read_code : Text → Option ContractError
read_code s =
    if s == text "only_admin"
    then some ContractError.only_admin
    else if s == text "only_licensee"
    then some ContractError.only_licensee
    else if s == text "only_owner"
    then some ContractError.only_owner
    else if s == text "paused"
    then some ContractError.paused
    else if s == text "no_pending_refund"
    then some ContractError.no_pending_refund
    else if s == text "tla_not_found"
    then some ContractError.tla_not_found
    else if s == text "tla_already_registered"
    then some ContractError.tla_already_registered
    else if s == text "tla_not_in_registered_state"
    then some ContractError.tla_not_in_registered_state
    else if s == text "tla_not_active"
    then some ContractError.tla_not_active
    else if s == text "tla_not_suspended"
    then some ContractError.tla_not_suspended
    else if s == text "tla_not_accepting_rentals"
    then some ContractError.tla_not_accepting_rentals
    else if s == text "tla_past_grace_period"
    then some ContractError.tla_past_grace_period
    else if s == text "business_tla_requires_licensee"
    then some ContractError.business_tla_requires_licensee
    else if s == text "business_tla_missing_licensee"
    then some ContractError.business_tla_missing_licensee
    else if s == text "wrong_activation_endpoint"
    then some ContractError.wrong_activation_endpoint
    else if s == text "sub_account_not_found"
    then some ContractError.sub_account_not_found
    else if s == text "sub_account_name_taken"
    then some ContractError.sub_account_name_taken
    else if s == text "sub_account_past_grace_period"
    then some ContractError.sub_account_past_grace_period
    else if s == text "sub_account_not_reclaimable"
    then some ContractError.sub_account_not_reclaimable
    else if s == text "main_wallet_equals_sub_account"
    then some ContractError.main_wallet_equals_sub_account
    else if s == text "invalid_sub_account_id"
    then some ContractError.invalid_sub_account_id
    else if s == text "insufficient_payment"
    then some ContractError.insufficient_payment
    else if s == text "insufficient_revenue"
    then some ContractError.insufficient_revenue
    else if s == text "withdrawal_amount_zero"
    then some ContractError.withdrawal_amount_zero
    else if s == text "token_not_in_allowlist"
    then some ContractError.token_not_in_allowlist
    else if s == text "allowlist_full"
    then some ContractError.allowlist_full
    else if s == text "allowlist_length_mismatch"
    then some ContractError.allowlist_length_mismatch
    else if s == text "invalid_ft_balance_response"
    then some ContractError.invalid_ft_balance_response
    else if s == text "all_rent_tiers_zero"
    then some ContractError.all_rent_tiers_zero
    else if s == text "creation_deposit_zero"
    then some ContractError.creation_deposit_zero
    else if s == text "cannot_remove_last_admin"
    then some ContractError.cannot_remove_last_admin
    else if s == text "already_at_current_version"
    then some ContractError.already_at_current_version
    else if s == text "sub_account_is_mother"
    then some ContractError.sub_account_is_mother
    else if s == text "mother_is_reclaimable"
    then some ContractError.mother_is_reclaimable
    else if s == text "mother_not_set"
    then some ContractError.mother_not_set
    else if s == text "max_business_subs_reached"
    then some ContractError.max_business_subs_reached
    else if s == text "no_retraction_scheduled"
    then some ContractError.no_retraction_scheduled
    else if s == text "retraction_already_scheduled"
    then some ContractError.retraction_already_scheduled
    else if s == text "retraction_already_elapsed"
    then some ContractError.retraction_already_elapsed
    else if s == text "retraction_pending"
    then some ContractError.retraction_pending
    else if s == text "not_business_tla"
    then some ContractError.not_business_tla
    else if s == text "requires_one_yocto"
    then some ContractError.requires_one_yocto
    else if s == text "insufficient_contract_balance"
    then some ContractError.insufficient_contract_balance
    else if s == text "not_listed"
    then some ContractError.not_listed
    else if s == text "sale_in_progress"
    then some ContractError.sale_in_progress
    else if s == text "sub_account_not_sellable"
    then some ContractError.sub_account_not_sellable
    else if s == text "price_not_met"
    then some ContractError.price_not_met
    else if s == text "invalid_price"
    then some ContractError.invalid_price
    else if s == text "no_accepted_offer"
    then some ContractError.no_accepted_offer
    else if s == text "invalid_commission_rate"
    then some ContractError.invalid_commission_rate
    else none

-- The error of the values of its fields.
unfoldable pub read_error : List Value → Option ContractError
unfolding read_code
read_error (Value.word code ∷ []) = read_code code
read_error (Value.word code ∷ Value.word reason ∷ []) =
    some (ContractError.invalid_name (read_reason_code reason))
read_error _ = none

read-reason_code : (r : NameInvalidReason) → read_reason_code (reason_code r) ≡ r
unfolding text_eq
read-reason_code NameInvalidReason.length_out_of_bounds = refl
read-reason_code NameInvalidReason.disallowed_character = refl
read-reason_code NameInvalidReason.edge_separator = refl

-- No two errors have the same fields: each is read back from the values of its own.
pub read-error : (e : ContractError) → read_error (values (error_data e)) ≡ some e
unfolding read_error error_data text_eq
read-error (ContractError.invalid_name r) =
    ap (λ x. some (ContractError.invalid_name x)) (read-reason_code r)
read-error e = ground arith
