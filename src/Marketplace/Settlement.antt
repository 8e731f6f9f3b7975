-- ===== src/Marketplace/Settlement.antt =====
-- What the end of a sale does to the money, the account and its terms.
use hos_tla.Base.{
  ◌==◌, ℕ, ◌+◌, ◌-◌, ◌*◌, ◌/◌, ◌≤◌, ◌≡◌, ◌≢◌, true, false, none, some, arith, Text, u128_max,
  unwrap_or, if◌then◌else◌, eq_iff, add_u128, Option-cases, inl, inr, ok,
}
use hos_tla.Base.Maps.{Map, get, insert, get-insert, get-insert_self, get-remove_self}
use hos_tla.Types.{AccountId, SubAccountEntry, Listing, AcceptedOffer}
use hos_tla.Types.Names.{sub_account_key}
use hos_tla.Registry.{Registry}
use hos_tla.Core.{get_pending_refund}
use hos_tla.Marketplace.{assert_sale_idle, listing_settling, offer_settling}
use hos_tla.Marketplace.Sale.{commission_of, on_sub_account_sold, idle_listing, idle_offer}

-- The commission is the configured share of the price, rounded down, and never more than the price.
pub commission_exact :
    (price : ℕ) (s : Registry)
    → price * s.fee_config.resale_commission_bps ≤ u128_max
    → s.fee_config.resale_commission_bps ≤ 10_000
    → commission_of price s ≡ price * s.fee_config.resale_commission_bps / 10_000
unfolding commission_of
commission_exact price s fits bps =
    let le : price * s.fee_config.resale_commission_bps ≤ 10_000 * price = grind arith in
    omega (arith, le)

commission-le-price : (price : ℕ) (s : Registry) → commission_of price s ≤ price
unfolding commission_of
commission-le-price price s = omega arith

module _ (tla : AccountId) (name : Text) (buyer : AccountId) (price deposit : ℕ) (s : Registry)
    (sub : SubAccountEntry) (found : get (sub_account_key tla name) s.sub_accounts ≡ some sub) where
  abbrev after : Registry
  after = on_sub_account_sold true tla name buyer price deposit s

  -- When the key of a managed account was handed over, the buyer is the owner and the beneficiary,
  -- the account's term is unchanged, and its listing and its accepted offer are gone.
  pub sold_to_buyer :
      (get (sub_account_key tla name) after.sub_accounts
        ≡ some (record sub { owner = buyer; main_wallet = buyer }))
      × (get (sub_account_key tla name) after.listings ≡ none)
      × (get (sub_account_key tla name) after.accepted_offers ≡ none)
  unfolding on_sub_account_sold
  sold_to_buyer =
      let key = sub_account_key tla name in
      (
        ground (
          arith,
          get-insert_self key (record sub { owner = buyer; main_wallet = buyer }) s.sub_accounts,
        ),
        ground (arith, get-remove_self key s.listings),
        ground (arith, get-remove_self key s.accepted_offers),
      )

  -- When the key of a managed account was handed over and at least the price was attached, the
  -- deposit is divided without a rest: the revenue grows by the commission, and the pending
  -- refunds by the seller's proceeds and the buyer's excess, as long as the sums stay in range.
  pub deposit_divided :
      price ≤ deposit
      → s.total_revenue + s.total_pending_refunds + deposit ≤ u128_max
      → let commission = commission_of price s in
        (after.total_revenue ≡ s.total_revenue + commission)
        × (after.total_pending_refunds
            ≡ s.total_pending_refunds + (price - commission) + (deposit - price))
        × (commission + (price - commission) + (deposit - price) ≡ deposit)
  unfolding on_sub_account_sold
  deposit_divided paid fits =
      (ground arith, ground arith, omega (arith, commission-le-price price s))

  -- When the key was handed over to a buyer who is not the seller, with at least the price
  -- attached and the sums in range, the seller is credited the price less the commission, the
  -- buyer what was attached above the price, and nobody else anything.
  pub credited :
      sub.owner ≢ buyer
      → price ≤ deposit
      → s.total_pending_refunds + deposit ≤ u128_max
      → (a : AccountId) → get_pending_refund a s ≤ s.total_pending_refunds
      → get_pending_refund a after
        ≡ get_pending_refund a s
          + (if sub.owner == a then price - commission_of price s else 0)
          + (if buyer == a then deposit - price else 0)
  unfolding on_sub_account_sold get_pending_refund
  credited apart paid fits a le =
      let proceeds = price - commission_of price s in
      let m = s.pending_refunds in
      let m1 = insert sub.owner (add_u128 (unwrap_or 0 (get sub.owner m)) proceeds) m in
      ground (
        arith,
        get-insert sub.owner a (add_u128 (unwrap_or 0 (get sub.owner m)) proceeds) m,
        get-insert sub.owner buyer (add_u128 (unwrap_or 0 (get sub.owner m)) proceeds) m,
        get-insert buyer a (add_u128 (unwrap_or 0 (get buyer m1)) (deposit - price)) m1,
        eq_iff sub.owner a,
        eq_iff buyer a,
        eq_iff sub.owner buyer,
      )

pub idle_listing-idle :
    (key : Text) (m : Map Listing)
    → listing_settling (get key (idle_listing key m (get key m))) ≡ false
idle_listing-idle key m = elim (Option-cases (get key m)) [
  | inl e ↦ ground arith
  | inr (l, e) ↦ ground (arith, get-insert_self key (record l { settling = false }) m)
]

pub idle_offer-idle :
    (key : Text) (m : Map AcceptedOffer)
    → offer_settling (get key (idle_offer key m (get key m))) ≡ false
idle_offer-idle key m = elim (Option-cases (get key m)) [
  | inl e ↦ ground arith
  | inr (o, e) ↦ ground (arith, get-insert_self key (record o { settling = false }) m)
]

-- When the key could not be handed over, the buyer is credited the whole deposit as long as the
-- refunds stay in range, the sub-accounts and the revenue stay as they were, and no sale of the
-- account is under way any more.
pub failed_sale_restores :
    (tla : AccountId) (name : Text) (buyer : AccountId) (price deposit : ℕ) (s : Registry)
    → s.total_pending_refunds + deposit ≤ u128_max
    → get_pending_refund buyer s ≤ s.total_pending_refunds
    → let t = on_sub_account_sold false tla name buyer price deposit s in
      let key = sub_account_key tla name in
      (get_pending_refund buyer t ≡ get_pending_refund buyer s + deposit)
      × (t.sub_accounts ≡ s.sub_accounts)
      × (t.total_revenue ≡ s.total_revenue)
      × (assert_sale_idle key t ≡ ok tt)
unfolding on_sub_account_sold get_pending_refund assert_sale_idle
failed_sale_restores tla name buyer price deposit s fits le =
    let key = sub_account_key tla name in
    let m = s.pending_refunds in
    (
      ground (arith, get-insert_self buyer (add_u128 (unwrap_or 0 (get buyer m)) deposit) m),
      ground arith,
      ground arith,
      ground (arith, idle_listing-idle key s.listings, idle_offer-idle key s.accepted_offers),
    )
