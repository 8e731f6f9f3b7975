-- ===== src/Logs/Fields.antt =====
-- contracts/tla-registry/src/events.rs: the fields of each event, and the texts that the handlers
-- put into them.
use hos_tla.Base.{ℕ, Option, none, some, [], ◌∷◌, Text, text}
use hos_tla.Types.{TlaType, PremiumCategory}
use hos_tla.Registry.{Event, BlockReason, MotherSource}
use hos_tla.Logs.Values.{Value, Object}
use hos_tla.Logs.Decimal.{decimal}

abbrev pub tla_type_text : TlaType → Text
tla_type_text TlaType.business = text "business"
tla_type_text TlaType.open_tla = text "open"

abbrev pub premium_text : PremiumCategory → Text
premium_text PremiumCategory.legendary = text "legendary"
premium_text PremiumCategory.premium = text "premium"
premium_text PremiumCategory.standard = text "standard"
premium_text PremiumCategory.community = text "community"

abbrev pub licensee_value : Option Text → Value
licensee_value none = Value.null
licensee_value (some a) = Value.word a

-- The texts that stand in `reason`, a balance in decimal digits.
abbrev pub reason_text : BlockReason → Text
reason_text (BlockReason.balance n) = decimal n
reason_text BlockReason.balance_query_failed = text "balance_query_failed"
reason_text BlockReason.balance_query_unverifiable = text "balance_query_unverifiable"
reason_text BlockReason.balance_unverifiable = text "balance_unverifiable"
reason_text BlockReason.result_count_mismatch = text "result_count_mismatch"
reason_text BlockReason.invalid_sub_account_id = text "invalid_sub_account_id"
reason_text BlockReason.transfer_failed = text "transfer_failed"
reason_text BlockReason.creation_failed = text "sub-account creation failed"

abbrev pub source_text : MotherSource → Text
source_text MotherSource.explicit = text "explicit"
source_text MotherSource.default = text "default"

-- The cap of a business TLA, or that it has none of its own.
abbrev pub cap_text : Option ℕ → Text
cap_text (some value) = decimal value
cap_text none = text "default"

unfoldable pub event_data : Event → Object
event_data (Event.contract_paused by) = (text "by", Value.word by) ∷ []
event_data (Event.contract_unpaused by) = (text "by", Value.word by) ∷ []
event_data (Event.fee_config_updated by) = (text "by", Value.word by) ∷ []
event_data (Event.tla_registered t k c l) =
    (text "tla_id", Value.word t)
    ∷ (text "tla_type", Value.word (tla_type_text k))
    ∷ (text "premium_category", Value.word (premium_text c))
    ∷ (text "licensee", licensee_value l)
    ∷ []
event_data (Event.tla_activated t e paid) =
    (text "tla_id", Value.word t)
    ∷ (text "expires_at", Value.number e)
    ∷ (text "paid_yocto", Value.word (decimal paid))
    ∷ []
event_data (Event.sub_account_rented n t o rent e) =
    (text "full_name", Value.word n)
    ∷ (text "tla_id", Value.word t)
    ∷ (text "owner", Value.word o)
    ∷ (text "rent_yocto", Value.word (decimal rent))
    ∷ (text "expires_at", Value.number e)
    ∷ []
event_data (Event.tla_renewed x e paid) =
    (text "entity", Value.word x)
    ∷ (text "new_expires_at", Value.number e)
    ∷ (text "paid_yocto", Value.word (decimal paid))
    ∷ []
event_data (Event.sub_account_renewed x e paid) =
    (text "entity", Value.word x)
    ∷ (text "new_expires_at", Value.number e)
    ∷ (text "paid_yocto", Value.word (decimal paid))
    ∷ []
event_data (Event.withdrawal_queued n r) =
    (text "amount_yocto", Value.word (decimal n)) ∷ (text "recipient", Value.word r) ∷ []
event_data (Event.admin_added a by) =
    (text "action", Value.word (text "added"))
    ∷ (text "account", Value.word a)
    ∷ (text "by", Value.word by)
    ∷ []
event_data (Event.admin_removed a by) =
    (text "action", Value.word (text "removed"))
    ∷ (text "account", Value.word a)
    ∷ (text "by", Value.word by)
    ∷ []
event_data (Event.tla_suspended t by) =
    (text "tla_id", Value.word t)
    ∷ (text "action", Value.word (text "suspended"))
    ∷ (text "by", Value.word by)
    ∷ []
event_data (Event.tla_unsuspended t by) =
    (text "tla_id", Value.word t)
    ∷ (text "action", Value.word (text "unsuspended"))
    ∷ (text "by", Value.word by)
    ∷ []
event_data (Event.refund_pending a n r) =
    (text "account", Value.word a)
    ∷ (text "amount_yocto", Value.word (decimal n))
    ∷ (text "reason", Value.word (reason_text r))
    ∷ []
event_data (Event.sub_account_reclaimed n t d) =
    (text "full_name", Value.word n)
    ∷ (text "tla_id", Value.word t)
    ∷ (text "swept_to", Value.word d)
    ∷ []
event_data (Event.sub_account_exported n t) =
    (text "full_name", Value.word n) ∷ (text "tla_id", Value.word t) ∷ []
event_data (Event.ft_allowlist_added a by) =
    (text "kind", Value.word (text "ft"))
    ∷ (text "token", Value.word a)
    ∷ (text "by", Value.word by)
    ∷ []
event_data (Event.ft_allowlist_removed a by) =
    (text "kind", Value.word (text "ft"))
    ∷ (text "token", Value.word a)
    ∷ (text "by", Value.word by)
    ∷ []
event_data (Event.nft_allowlist_added a by) =
    (text "kind", Value.word (text "nft"))
    ∷ (text "token", Value.word a)
    ∷ (text "by", Value.word by)
    ∷ []
event_data (Event.nft_allowlist_removed a by) =
    (text "kind", Value.word (text "nft"))
    ∷ (text "token", Value.word a)
    ∷ (text "by", Value.word by)
    ∷ []
event_data (Event.main_wallet_updated n w) =
    (text "full_name", Value.word n) ∷ (text "new_wallet", Value.word w) ∷ []
event_data (Event.reclaim_finalize_blocked n a r) =
    (text "full_name", Value.word n)
    ∷ (text "token", Value.word a)
    ∷ (text "reason", Value.word (reason_text r))
    ∷ []
event_data (Event.mother_set u m src) =
    (text "user", Value.word u)
    ∷ (text "mother", Value.word m)
    ∷ (text "source", Value.word (source_text src))
    ∷ []
event_data (Event.mother_cleared u m by) =
    (text "user", Value.word u)
    ∷ (text "previous_mother", Value.word m)
    ∷ (text "by", Value.word by)
    ∷ []
event_data (Event.sub_account_retraction_scheduled n at by) =
    (text "full_name", Value.word n)
    ∷ (text "retraction_at", Value.number at)
    ∷ (text "by", Value.word by)
    ∷ []
event_data (Event.sub_account_retraction_canceled n by) =
    (text "full_name", Value.word n) ∷ (text "by", Value.word by) ∷ []
event_data (Event.business_sub_cap_set t c by) =
    (text "tla_id", Value.word t)
    ∷ (text "cap", Value.word (cap_text c))
    ∷ (text "by", Value.word by)
    ∷ []
event_data (Event.resale_unlock_requested a by) =
    (text "account", Value.word a) ∷ (text "by", Value.word by) ∷ []
event_data (Event.resale_abort_requested a by) =
    (text "account", Value.word a) ∷ (text "by", Value.word by) ∷ []
event_data (Event.sub_account_listed n p o) =
    (text "full_name", Value.word n)
    ∷ (text "price_yocto", Value.word (decimal p))
    ∷ (text "seller", Value.word o)
    ∷ []
event_data (Event.sub_account_unlisted n by) =
    (text "full_name", Value.word n) ∷ (text "by", Value.word by) ∷ []
event_data (Event.offer_accepted n b p o) =
    (text "full_name", Value.word n)
    ∷ (text "buyer", Value.word b)
    ∷ (text "price_yocto", Value.word (decimal p))
    ∷ (text "seller", Value.word o)
    ∷ []
event_data (Event.offer_revoked n by) =
    (text "full_name", Value.word n) ∷ (text "by", Value.word by) ∷ []
event_data (Event.sub_account_sold n t o b p c q) =
    (text "full_name", Value.word n)
    ∷ (text "tla_id", Value.word t)
    ∷ (text "seller", Value.word o)
    ∷ (text "buyer", Value.word b)
    ∷ (text "price_yocto", Value.word (decimal p))
    ∷ (text "commission_yocto", Value.word (decimal c))
    ∷ (text "seller_proceeds_yocto", Value.word (decimal q))
    ∷ []
event_data (Event.sub_account_sale_failed n b) =
    (text "full_name", Value.word n) ∷ (text "buyer", Value.word b) ∷ []
event_data (Event.sub_account_sale_blocked n a r) =
    (text "full_name", Value.word n)
    ∷ (text "token", Value.word a)
    ∷ (text "reason", Value.word (reason_text r))
    ∷ []
