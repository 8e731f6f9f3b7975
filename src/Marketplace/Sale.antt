-- ===== src/Marketplace/Sale.antt =====
-- contracts/tla-registry/src/marketplace.rs: what the callbacks of a sale do, once the balances are
-- known and once the locker has answered.
use hos_tla.Base.{
  ℕ, ◌-◌, ◌/◌, min, Bool, true, false, not, Option, none, some, List, [], ◌∷◌, Text, length, nat_eq,
  ltb, if◌then◌else◌, add_u128, mul_u128,
}
use hos_tla.Base.Maps.{Map, get, insert, remove}
use hos_tla.Types.{AccountId, SubAccountEntry, Listing, AcceptedOffer}
use hos_tla.Types.Names.{sub_account_key}
use hos_tla.Registry.{
  Event, BlockReason, PendingBuy, Promise, PromiseResult, Env, Registry, emit, add_pending_refund,
  refund_excess,
}
use hos_tla.Marketplace.{bps_denominator, settle_transfer}

abbrev pub idle_listing : Text → Map Listing → Option Listing → Map Listing
idle_listing key m none = m
idle_listing key m (some l) = insert key (record l { settling = false }) m

abbrev pub idle_offer : Text → Map AcceptedOffer → Option AcceptedOffer → Map AcceptedOffer
idle_offer key m none = m
idle_offer key m (some o) = insert key (record o { settling = false }) m

unfoldable pub clear_settling : Text → Registry → Registry
clear_settling key s = record s {
  listings = idle_listing key s.listings (get key s.listings);
  accepted_offers = idle_offer key s.accepted_offers (get key s.accepted_offers);
}

-- `price * bps / 10000`, at most the price.
unfoldable pub commission_of : ℕ → Registry → ℕ
commission_of price s =
    min (mul_u128 price s.fee_config.resale_commission_bps / bps_denominator) price

-- The branch of a transfer that went through, by the entry of the account that was sold.
abbrev pub settle_sale :
    Text → AccountId → AccountId → ℕ → ℕ → Registry → Option SubAccountEntry → Registry
settle_sale key tla_id buyer price deposit s none =
    clear_settling key (add_pending_refund buyer deposit s)
settle_sale key tla_id buyer price deposit s (some sub) =
    let seller = sub.owner in
    let commission = commission_of price s in
    let seller_proceeds = price - commission in
    let s1 = record s { total_revenue = add_u128 s.total_revenue commission } in
    let s2 = add_pending_refund seller seller_proceeds s1 in
    let s3 = refund_excess buyer (deposit - price) s2 in
    let sold = record sub { owner = buyer; main_wallet = buyer } in
    emit (Event.sub_account_sold key tla_id seller buyer price commission seller_proceeds)
      (record s3 {
        sub_accounts = insert key sold s3.sub_accounts;
        listings = remove key s3.listings;
        accepted_offers = remove key s3.accepted_offers;
      })

unfoldable pub on_sub_account_sold :
    Bool → AccountId → Text → AccountId → ℕ → ℕ → Registry → Registry
unfolding add_pending_refund clear_settling refund_excess commission_of
on_sub_account_sold false tla_id name buyer price deposit s =
    let key = sub_account_key tla_id name in
    emit (Event.sub_account_sale_failed key buyer)
      (clear_settling key (add_pending_refund buyer deposit s))
on_sub_account_sold true tla_id name buyer price deposit s =
    let key = sub_account_key tla_id name in
    settle_sale key tla_id buyer price deposit s (get key s.sub_accounts)

unfoldable pub abort_sale : Text → PendingBuy → Text → BlockReason → Registry → Registry
unfolding add_pending_refund clear_settling
abort_sale key settlement token reason s =
    emit (Event.sub_account_sale_blocked key token reason)
      (clear_settling key (add_pending_refund settlement.buyer settlement.deposit s))

abbrev number_block : Option ℕ → Option BlockReason
number_block none = some BlockReason.balance_unverifiable
number_block (some balance) = if ltb 0 balance then some (BlockReason.balance balance) else none

unfoldable pub ft_balance_block_reason : Env → PromiseResult → Option BlockReason
ft_balance_block_reason env (PromiseResult.returned bytes) = number_block (env.from_slice bytes)
ft_balance_block_reason env PromiseResult.failed = some BlockReason.balance_query_failed
ft_balance_block_reason env PromiseResult.unverifiable = some BlockReason.balance_query_unverifiable

-- The loop of `sale_block_reason`, over as many results as tokens.
unfoldable pub first_sale_block :
    Env → List AccountId → List PromiseResult → Option (Text × BlockReason)
unfolding ft_balance_block_reason
first_sale_block env [] results = none
first_sale_block env (token ∷ allowlist) [] = some (token, BlockReason.balance_query_unverifiable)
first_sale_block env (token ∷ allowlist) (r ∷ results) =
    let rest = first_sale_block env allowlist results in
    elim (ft_balance_block_reason env r) [ none ↦ rest | some reason ↦ some (token, reason) ]

unfoldable pub sale_block_reason :
    Env → List AccountId → List PromiseResult → Option (Text × BlockReason)
unfolding first_sale_block
sale_block_reason env allowlist results =
    if not (nat_eq (length results) (length allowlist))
    then some ([], BlockReason.result_count_mismatch)
    else first_sale_block env allowlist results

abbrev pub after_sale_check :
    Env → Text → PendingBuy → Registry → Option (Text × BlockReason) → Registry × Option Promise
after_sale_check env key settlement s (some (token, reason)) =
    (abort_sale key settlement token reason s, none)
after_sale_check env key settlement s none =
    if env.is_account_id key
    then (s, some (settle_transfer key settlement))
    else (abort_sale key settlement [] BlockReason.invalid_sub_account_id s, none)

unfoldable pub on_buy_balances_checked :
    Env → List PromiseResult → PendingBuy → List AccountId → Registry → Registry × Option Promise
unfolding abort_sale settle_transfer
on_buy_balances_checked env results settlement allowlist s =
    let key = sub_account_key settlement.tla_id settlement.name in
    after_sale_check env key settlement s (sale_block_reason env allowlist results)
