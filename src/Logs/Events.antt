-- ===== src/Logs/Events.antt =====
-- contracts/tla-registry/src/events.rs: the name of each event, and the line that `emit` logs. The
-- names stand at the calls of `emit`.
use hos_tla.Base.{Option, none, some, ◌++◌, Text, text}
use hos_tla.Registry.{Event}
use hos_tla.Logs.Values.{Object}
use hos_tla.Logs.Fields.{event_data}

unfoldable pub event_name : Event → Text
event_name (Event.contract_paused _) = text "contract_paused"
event_name (Event.contract_unpaused _) = text "contract_unpaused"
event_name (Event.fee_config_updated _) = text "fee_config_updated"
event_name (Event.tla_registered _ _ _ _) = text "tla_registered"
event_name (Event.tla_activated _ _ _) = text "tla_activated"
event_name (Event.sub_account_rented _ _ _ _ _) = text "sub_account_rented"
event_name (Event.tla_renewed _ _ _) = text "tla_renewed"
event_name (Event.sub_account_renewed _ _ _) = text "sub_account_renewed"
event_name (Event.withdrawal_queued _ _) = text "withdrawal_queued"
event_name (Event.admin_added _ _) = text "admin_added"
event_name (Event.admin_removed _ _) = text "admin_removed"
event_name (Event.tla_suspended _ _) = text "tla_suspended"
event_name (Event.tla_unsuspended _ _) = text "tla_unsuspended"
event_name (Event.refund_pending _ _ _) = text "refund_pending"
event_name (Event.sub_account_reclaimed _ _ _) = text "sub_account_reclaimed"
event_name (Event.sub_account_exported _ _) = text "sub_account_exported"
event_name (Event.ft_allowlist_added _ _) = text "ft_allowlist_added"
event_name (Event.ft_allowlist_removed _ _) = text "ft_allowlist_removed"
event_name (Event.nft_allowlist_added _ _) = text "nft_allowlist_added"
event_name (Event.nft_allowlist_removed _ _) = text "nft_allowlist_removed"
event_name (Event.main_wallet_updated _ _) = text "main_wallet_updated"
event_name (Event.reclaim_finalize_blocked _ _ _) = text "reclaim_finalize_blocked"
event_name (Event.mother_set _ _ _) = text "mother_set"
event_name (Event.mother_cleared _ _ _) = text "mother_cleared"
event_name (Event.sub_account_retraction_scheduled _ _ _) = text "sub_account_retraction_scheduled"
event_name (Event.sub_account_retraction_canceled _ _) = text "sub_account_retraction_canceled"
event_name (Event.business_sub_cap_set _ _ _) = text "business_sub_cap_set"
event_name (Event.resale_unlock_requested _ _) = text "resale_unlock_requested"
event_name (Event.resale_abort_requested _ _) = text "resale_abort_requested"
event_name (Event.sub_account_listed _ _ _) = text "sub_account_listed"
event_name (Event.sub_account_unlisted _ _) = text "sub_account_unlisted"
event_name (Event.offer_accepted _ _ _ _) = text "offer_accepted"
event_name (Event.offer_revoked _ _) = text "offer_revoked"
event_name (Event.sub_account_sold _ _ _ _ _ _ _) = text "sub_account_sold"
event_name (Event.sub_account_sale_failed _ _) = text "sub_account_sale_failed"
event_name (Event.sub_account_sale_blocked _ _ _) = text "sub_account_sale_blocked"

-- The text that `emit` puts before the name of the event, and between the name and its data.
unfoldable pub line_start : Text
line_start = text "EVENT_JSON:{\"standard\":\"hos-tla\",\"version\":\"1.0.0\",\"event\":\""

unfoldable pub line_middle : Text
line_middle = text "\",\"data\":"

abbrev pub printed : Text → Option Text → Option Text
printed name none = none
printed name (some json) = some (line_start ++ (name ++ (line_middle ++ (json ++ text "}"))))

-- `emit`: `none` where the data cannot be serialised, at which the contract panics. `to_string` is
-- the one of serde_json.
unfoldable pub log_line : (Object → Option Text) → Event → Option Text
log_line to_string e = printed (event_name e) (to_string (event_data e))
