-- ===== src/Logs/EventsBack.antt =====
-- Every event is read back from its name and its fields.
use hos_tla.Base.{ℕ, ◌≡◌, refl, ap, ◌∙◌, arith, Option, none, some, Text, text_eq}
use hos_tla.Types.{TlaType, PremiumCategory}
use hos_tla.Registry.{Event, BlockReason, MotherSource}
use hos_tla.Logs.Decimal.{read_onto, read_decimal, read-decimal}
use hos_tla.Logs.Fields.{
  tla_type_text, premium_text, licensee_value, reason_text, source_text, cap_text, event_data,
}
use hos_tla.Logs.Events.{event_name}
use hos_tla.Logs.EventReader.{read_event}
use hos_tla.Logs.Shapes.{read_tla_type, read_premium, read_licensee, read_reason, read_source}

read-reason : (r : BlockReason) → read_reason (reason_text r) ≡ r
unfolding read_decimal read_onto text_eq
read-reason (BlockReason.balance n) = ground (arith, read-decimal n)
read-reason BlockReason.balance_query_failed = refl
read-reason BlockReason.balance_query_unverifiable = refl
read-reason BlockReason.balance_unverifiable = refl
read-reason BlockReason.result_count_mismatch = refl
read-reason BlockReason.invalid_sub_account_id = refl
read-reason BlockReason.transfer_failed = refl
read-reason BlockReason.creation_failed = refl

read-cap : (c : Option ℕ) → read_decimal (cap_text c) ≡ c
unfolding read_decimal read_onto
read-cap none = refl
read-cap (some n) = read-decimal n

read-tla_type : (k : TlaType) → read_tla_type (tla_type_text k) ≡ k
unfolding text_eq
read-tla_type TlaType.business = refl
read-tla_type TlaType.open_tla = refl

read-premium : (c : PremiumCategory) → read_premium (premium_text c) ≡ c
unfolding text_eq
read-premium PremiumCategory.legendary = refl
read-premium PremiumCategory.premium = refl
read-premium PremiumCategory.standard = refl
read-premium PremiumCategory.community = refl

read-licensee : (l : Option Text) → read_licensee (licensee_value l) ≡ l
read-licensee none = refl
read-licensee (some a) = refl

read-source : (s : MotherSource) → read_source (source_text s) ≡ s
unfolding text_eq
read-source MotherSource.explicit = refl
read-source MotherSource.default = refl

-- The event is the one of its name and its fields.
pub read-event : (e : Event) → read_event (event_name e) (event_data e) ≡ some e
unfolding read_event event_name event_data text_eq
read-event (Event.contract_paused by) = refl
read-event (Event.contract_unpaused by) = refl
read-event (Event.fee_config_updated by) = refl
read-event (Event.tla_registered t k c l) =
    ap (λ x. some (Event.tla_registered t x _ _)) (read-tla_type k)
    ∙ ap (λ x. some (Event.tla_registered t k x _)) (read-premium c)
    ∙ ap (λ x. some (Event.tla_registered t k c x)) (read-licensee l)
read-event (Event.tla_activated t e paid) = ground (arith, read-decimal paid)
read-event (Event.sub_account_rented n t o rent e) = ground (arith, read-decimal rent)
read-event (Event.tla_renewed x e paid) = ground (arith, read-decimal paid)
read-event (Event.sub_account_renewed x e paid) = ground (arith, read-decimal paid)
read-event (Event.withdrawal_queued n r) = ground (arith, read-decimal n)
read-event (Event.admin_added a by) = refl
read-event (Event.admin_removed a by) = refl
read-event (Event.tla_suspended t by) = refl
read-event (Event.tla_unsuspended t by) = refl
read-event (Event.refund_pending a n r) = ground (arith, read-decimal n, read-reason r)
read-event (Event.sub_account_reclaimed n t d) = refl
read-event (Event.sub_account_exported n t) = refl
read-event (Event.ft_allowlist_added a by) = refl
read-event (Event.ft_allowlist_removed a by) = refl
read-event (Event.nft_allowlist_added a by) = refl
read-event (Event.nft_allowlist_removed a by) = refl
read-event (Event.main_wallet_updated n w) = refl
read-event (Event.reclaim_finalize_blocked n a r) =
    ap (λ x. some (Event.reclaim_finalize_blocked n a x)) (read-reason r)
read-event (Event.mother_set u m src) = ap (λ x. some (Event.mother_set u m x)) (read-source src)
read-event (Event.mother_cleared u m by) = refl
read-event (Event.sub_account_retraction_scheduled n at by) = refl
read-event (Event.sub_account_retraction_canceled n by) = refl
read-event (Event.business_sub_cap_set t c by) =
    ap (λ x. some (Event.business_sub_cap_set t x by)) (read-cap c)
read-event (Event.resale_unlock_requested a by) = refl
read-event (Event.resale_abort_requested a by) = refl
read-event (Event.sub_account_listed n p o) = ground (arith, read-decimal p)
read-event (Event.sub_account_unlisted n by) = refl
read-event (Event.offer_accepted n b p o) = ground (arith, read-decimal p)
read-event (Event.offer_revoked n by) = refl
read-event (Event.sub_account_sold n t o b p c q) =
    ground (arith, read-decimal p, read-decimal c, read-decimal q)
read-event (Event.sub_account_sale_failed n b) = refl
read-event (Event.sub_account_sale_blocked n a r) =
    ap (λ x. some (Event.sub_account_sale_blocked n a x)) (read-reason r)
