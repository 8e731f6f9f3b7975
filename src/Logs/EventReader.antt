-- ===== src/Logs/EventReader.antt =====
-- A reader of log lines, as a client that indexes the events has it.
use hos_tla.Base.{◌==◌, Option, none, some, List, [], ◌∷◌, Text, text, if◌then◌else◌}
use hos_tla.Registry.{Event}
use hos_tla.Logs.Values.{Value, Object}
use hos_tla.Logs.Shapes.{
  as_contract_paused, as_tla_registered, as_tla_activated, as_sub_account_rented, as_tla_renewed,
  as_withdrawal_queued, as_admin_added, as_tla_suspended, as_refund_pending,
  as_sub_account_reclaimed, as_sub_account_exported, as_main_wallet_updated,
  as_reclaim_finalize_blocked, as_mother_set, as_mother_cleared,
  as_sub_account_retraction_scheduled, as_sub_account_retraction_canceled, as_business_sub_cap_set,
  as_resale_unlock_requested, as_sub_account_listed, as_offer_accepted, as_sub_account_sold,
  as_sub_account_sale_failed,
}

-- The value of a field of an object, and those of several, if all are there.
abbrev field : Text → Object → Option Value
field k [] = none
field k ((j, v) ∷ rest) = let later = field k rest in if k == j then some v else later

abbrev cons_found : Option Value → Option (List Value) → Option (List Value)
cons_found (some v) (some vs) = some (v ∷ vs)
cons_found _ _ = none

abbrev fields : List Text → Object → Option (List Value)
fields [] o = some []
fields (k ∷ ks) o = cons_found (field k o) (fields ks o)

abbrev with_fields : (List Value → Option Event) → List Text → Object → Option Event
with_fields f ks o = elim (fields ks o) [ none ↦ none | some vs ↦ f vs ]

-- The event of a name and of its fields, which are looked up by the names that the structs of
-- events.rs give them.
unfoldable pub read_event : Text → Object → Option Event
read_event name o =
    if name == text "contract_paused"
    then with_fields (as_contract_paused Event.contract_paused) (text "by" ∷ []) o
    else if name == text "contract_unpaused"
    then with_fields (as_contract_paused Event.contract_unpaused) (text "by" ∷ []) o
    else if name == text "fee_config_updated"
    then with_fields (as_contract_paused Event.fee_config_updated) (text "by" ∷ []) o
    else if name == text "tla_registered"
    then with_fields (as_tla_registered Event.tla_registered)
        (text "tla_id" ∷ text "tla_type" ∷ text "premium_category" ∷ text "licensee" ∷ []) o
    else if name == text "tla_activated"
    then with_fields (as_tla_activated Event.tla_activated)
        (text "tla_id" ∷ text "expires_at" ∷ text "paid_yocto" ∷ []) o
    else if name == text "sub_account_rented"
    then with_fields (as_sub_account_rented Event.sub_account_rented)
        (text "full_name"
          ∷ text "tla_id"
          ∷ text "owner"
          ∷ text "rent_yocto"
          ∷ text "expires_at"
          ∷ [])
        o
    else if name == text "tla_renewed"
    then with_fields (as_tla_renewed Event.tla_renewed)
        (text "entity" ∷ text "new_expires_at" ∷ text "paid_yocto" ∷ []) o
    else if name == text "sub_account_renewed"
    then with_fields (as_tla_renewed Event.sub_account_renewed)
        (text "entity" ∷ text "new_expires_at" ∷ text "paid_yocto" ∷ []) o
    else if name == text "withdrawal_queued"
    then with_fields (as_withdrawal_queued Event.withdrawal_queued)
        (text "amount_yocto" ∷ text "recipient" ∷ []) o
    else if name == text "admin_added"
    then with_fields (as_admin_added (text "added") Event.admin_added)
        (text "action" ∷ text "account" ∷ text "by" ∷ []) o
    else if name == text "admin_removed"
    then with_fields (as_admin_added (text "removed") Event.admin_removed)
        (text "action" ∷ text "account" ∷ text "by" ∷ []) o
    else if name == text "tla_suspended"
    then with_fields (as_tla_suspended (text "suspended") Event.tla_suspended)
        (text "tla_id" ∷ text "action" ∷ text "by" ∷ []) o
    else if name == text "tla_unsuspended"
    then with_fields (as_tla_suspended (text "unsuspended") Event.tla_unsuspended)
        (text "tla_id" ∷ text "action" ∷ text "by" ∷ []) o
    else if name == text "refund_pending"
    then with_fields (as_refund_pending Event.refund_pending)
        (text "account" ∷ text "amount_yocto" ∷ text "reason" ∷ []) o
    else if name == text "sub_account_reclaimed"
    then with_fields (as_sub_account_reclaimed Event.sub_account_reclaimed)
        (text "full_name" ∷ text "tla_id" ∷ text "swept_to" ∷ []) o
    else if name == text "sub_account_exported"
    then with_fields (as_sub_account_exported Event.sub_account_exported)
        (text "full_name" ∷ text "tla_id" ∷ []) o
    else if name == text "ft_allowlist_added"
    then with_fields (as_admin_added (text "ft") Event.ft_allowlist_added)
        (text "kind" ∷ text "token" ∷ text "by" ∷ []) o
    else if name == text "ft_allowlist_removed"
    then with_fields (as_admin_added (text "ft") Event.ft_allowlist_removed)
        (text "kind" ∷ text "token" ∷ text "by" ∷ []) o
    else if name == text "nft_allowlist_added"
    then with_fields (as_admin_added (text "nft") Event.nft_allowlist_added)
        (text "kind" ∷ text "token" ∷ text "by" ∷ []) o
    else if name == text "nft_allowlist_removed"
    then with_fields (as_admin_added (text "nft") Event.nft_allowlist_removed)
        (text "kind" ∷ text "token" ∷ text "by" ∷ []) o
    else if name == text "main_wallet_updated"
    then with_fields (as_main_wallet_updated Event.main_wallet_updated)
        (text "full_name" ∷ text "new_wallet" ∷ []) o
    else if name == text "reclaim_finalize_blocked"
    then with_fields (as_reclaim_finalize_blocked Event.reclaim_finalize_blocked)
        (text "full_name" ∷ text "token" ∷ text "reason" ∷ []) o
    else if name == text "mother_set"
    then with_fields (as_mother_set Event.mother_set)
        (text "user" ∷ text "mother" ∷ text "source" ∷ []) o
    else if name == text "mother_cleared"
    then with_fields (as_mother_cleared Event.mother_cleared)
        (text "user" ∷ text "previous_mother" ∷ text "by" ∷ []) o
    else if name == text "sub_account_retraction_scheduled"
    then with_fields (as_sub_account_retraction_scheduled Event.sub_account_retraction_scheduled)
        (text "full_name" ∷ text "retraction_at" ∷ text "by" ∷ []) o
    else if name == text "sub_account_retraction_canceled"
    then with_fields (as_sub_account_retraction_canceled Event.sub_account_retraction_canceled)
        (text "full_name" ∷ text "by" ∷ []) o
    else if name == text "business_sub_cap_set"
    then with_fields (as_business_sub_cap_set Event.business_sub_cap_set)
        (text "tla_id" ∷ text "cap" ∷ text "by" ∷ []) o
    else if name == text "resale_unlock_requested"
    then with_fields (as_resale_unlock_requested Event.resale_unlock_requested)
        (text "account" ∷ text "by" ∷ []) o
    else if name == text "resale_abort_requested"
    then with_fields (as_resale_unlock_requested Event.resale_abort_requested)
        (text "account" ∷ text "by" ∷ []) o
    else if name == text "sub_account_listed"
    then with_fields (as_sub_account_listed Event.sub_account_listed)
        (text "full_name" ∷ text "price_yocto" ∷ text "seller" ∷ []) o
    else if name == text "sub_account_unlisted"
    then with_fields (as_sub_account_retraction_canceled Event.sub_account_unlisted)
        (text "full_name" ∷ text "by" ∷ []) o
    else if name == text "offer_accepted"
    then with_fields (as_offer_accepted Event.offer_accepted)
        (text "full_name" ∷ text "buyer" ∷ text "price_yocto" ∷ text "seller" ∷ []) o
    else if name == text "offer_revoked"
    then with_fields (as_sub_account_retraction_canceled Event.offer_revoked)
        (text "full_name" ∷ text "by" ∷ []) o
    else if name == text "sub_account_sold"
    then with_fields (as_sub_account_sold Event.sub_account_sold)
        (text "full_name"
          ∷ text "tla_id"
          ∷ text "seller"
          ∷ text "buyer"
          ∷ text "price_yocto"
          ∷ text "commission_yocto"
          ∷ text "seller_proceeds_yocto"
          ∷ [])
        o
    else if name == text "sub_account_sale_failed"
    then with_fields (as_sub_account_sale_failed Event.sub_account_sale_failed)
        (text "full_name" ∷ text "buyer" ∷ []) o
    else if name == text "sub_account_sale_blocked"
    then with_fields (as_reclaim_finalize_blocked Event.sub_account_sale_blocked)
        (text "full_name" ∷ text "token" ∷ text "reason" ∷ []) o
    else none
