-- ===== src/Marketplace.antt =====
-- contracts/tla-registry/src/marketplace.rs: listings, accepted offers, and the sale of a
-- sub-account that stays in its locker.
pub mod Settlement
pub mod Locking
pub mod Sellable
pub mod Sale
pub mod Balances
use hos_tla.Base.{
  ◌==◌, ℕ, ◌-◌, ◌/◌, min, Bool, true, false, not, Option, none, some, List, [], ◌∷◌, Text, length,
  nat_eq, ltb, if◌then◌else◌, is_some, add_u128, mul_u128, Result, ok, err, err_if, ok_or, ◌>>=◌,
  ◌>>◌,
}
use hos_tla.Base.Maps.{Map, get, contains_key, insert, remove}
use hos_tla.Types.{
  AccountId, PublicKey, SubAccountEntry, Listing, AcceptedOffer, is_active, is_live,
}
use hos_tla.Types.Lifecycle.{effective_sub_lifecycle}
use hos_tla.Types.Names.{sub_account_key}
use hos_tla.Registry.{
  ContractError, Event, BlockReason, Call, Callback, PendingBuy, Promise, PromiseResult, one_call,
  then_call, Env, Registry, Outcome, emit, assert_not_paused, assert_one_yocto, add_pending_refund,
  refund_excess,
}
use hos_tla.Mother.{is_mother}
use hos_tla.Reclaim.{balance_queries}

abbrev pub bps_denominator : ℕ
bps_denominator = 10_000

abbrev pub gas_for_locker_transfer : ℕ
gas_for_locker_transfer = 15

abbrev pub gas_for_sold_callback : ℕ
gas_for_sold_callback = 20

abbrev pub gas_for_buy_balances_cb : ℕ
gas_for_buy_balances_cb = 60

abbrev pub listing_settling : Option Listing → Bool
listing_settling none = false
listing_settling (some l) = l.settling

abbrev pub offer_settling : Option AcceptedOffer → Bool
offer_settling none = false
offer_settling (some o) = o.settling

unfoldable pub assert_sale_idle : Text → Registry → Result ContractError (Unit {0})
assert_sale_idle key s = do
  err_if (listing_settling (get key s.listings)) ContractError.sale_in_progress
  err_if (offer_settling (get key s.accepted_offers)) ContractError.sale_in_progress

-- The answer is the owner.
unfoldable pub assert_sellable : Env → Text → AccountId → Registry → Result ContractError AccountId
unfolding is_mother
assert_sellable env key tla_id s = do
  err_if (not (env.is_account_id key)) ContractError.invalid_sub_account_id
  err_if (is_mother key s) ContractError.sub_account_is_mother
  sub ← ok_or (get key s.sub_accounts) ContractError.sub_account_not_found
  err_if (is_some sub.retraction_at) ContractError.retraction_pending
  tla ← ok_or (get tla_id s.tlas) ContractError.tla_not_found
  err_if (not (is_active tla.status)) ContractError.sub_account_not_sellable
  err_if
      (not (
        is_live
          (effective_sub_lifecycle env.block_timestamp sub tla s.fee_config.retraction_notice_ns)))
      ContractError.sub_account_not_sellable
  ok sub.owner

unfoldable pub sub_account_owner : Text → Registry → Result ContractError AccountId
sub_account_owner key s = do
  sub ← ok_or (get key s.sub_accounts) ContractError.sub_account_not_found
  ok sub.owner

unfoldable pub list_sub_account :
    Env → AccountId → Text → ℕ → Registry → Result ContractError Registry
unfolding assert_one_yocto assert_not_paused assert_sale_idle assert_sellable
list_sub_account env tla_id name price s = do
  assert_one_yocto env
  assert_not_paused s
  err_if (nat_eq price 0) ContractError.invalid_price
  let key = sub_account_key tla_id name
  assert_sale_idle key s
  owner ← assert_sellable env key tla_id s
  err_if (not (env.predecessor == owner)) ContractError.only_owner
  let listing : Listing = record { price = price; settling = false }
  ok (
      emit (Event.sub_account_listed key price owner)
        (record s { listings = insert key listing s.listings }))

unfoldable pub unlist_sub_account :
    Env → AccountId → Text → Registry → Result ContractError Registry
unfolding assert_one_yocto assert_not_paused assert_sale_idle contains_key sub_account_owner
unlist_sub_account env tla_id name s = do
  assert_one_yocto env
  assert_not_paused s
  let key = sub_account_key tla_id name
  assert_sale_idle key s
  err_if (not (contains_key key s.listings)) ContractError.not_listed
  owner ← sub_account_owner key s
  err_if (not (env.predecessor == owner)) ContractError.only_owner
  ok (emit (Event.sub_account_unlisted key owner) (record s { listings = remove key s.listings }))

unfoldable pub accept_offer :
    Env → AccountId → Text → AccountId → ℕ → Registry → Result ContractError Registry
unfolding assert_one_yocto assert_not_paused assert_sale_idle assert_sellable
accept_offer env tla_id name buyer price s = do
  assert_one_yocto env
  assert_not_paused s
  err_if (nat_eq price 0) ContractError.invalid_price
  let key = sub_account_key tla_id name
  assert_sale_idle key s
  owner ← assert_sellable env key tla_id s
  err_if (not (env.predecessor == owner)) ContractError.only_owner
  let offer : AcceptedOffer = record { buyer = buyer; price = price; settling = false }
  ok (
      emit (Event.offer_accepted key buyer price owner)
        (record s { accepted_offers = insert key offer s.accepted_offers }))

unfoldable pub revoke_offer : Env → AccountId → Text → Registry → Result ContractError Registry
unfolding assert_one_yocto assert_not_paused assert_sale_idle contains_key sub_account_owner
revoke_offer env tla_id name s = do
  assert_one_yocto env
  assert_not_paused s
  let key = sub_account_key tla_id name
  assert_sale_idle key s
  err_if (not (contains_key key s.accepted_offers)) ContractError.no_accepted_offer
  owner ← sub_account_owner key s
  err_if (not (env.predecessor == owner)) ContractError.only_owner
  ok (
      emit (Event.offer_revoked key owner)
        (record s { accepted_offers = remove key s.accepted_offers }))

-- The price, and the state in which the terms are locked.
abbrev pub Locked : Type 0
Locked = ℕ × Registry

abbrev lock_listing : Text → ℕ → Registry → Option Listing → Result ContractError Locked
lock_listing key deposit s none = err ContractError.not_listed
lock_listing key deposit s (some listing) = do
  err_if (ltb deposit listing.price) ContractError.price_not_met
  ok (
    listing.price,
    record s { listings = insert key (record listing { settling = true }) s.listings },
  )

abbrev lock_offer : Text → ℕ → Registry → AcceptedOffer → Result ContractError Locked
lock_offer key deposit s offer = do
  err_if (ltb deposit offer.price) ContractError.price_not_met
  ok (
    offer.price,
    record s { accepted_offers = insert key (record offer { settling = true }) s.accepted_offers },
  )

abbrev lock_terms :
    Text → AccountId → ℕ → Registry → Option AcceptedOffer → Result ContractError Locked
lock_terms key buyer deposit s none = lock_listing key deposit s (get key s.listings)
lock_terms key buyer deposit s (some offer) =
    if offer.buyer == buyer
    then lock_offer key deposit s offer
    else lock_listing key deposit s (get key s.listings)

unfoldable pub resolve_and_lock_sale : Text → AccountId → ℕ → Registry → Result ContractError Locked
resolve_and_lock_sale key buyer deposit s =
    lock_terms key buyer deposit s (get key s.accepted_offers)

-- `settle_transfer`
unfoldable pub settle_transfer : AccountId → PendingBuy → Promise
settle_transfer sub_account b =
    then_call (one_call (Call.transfer_key sub_account b.new_owner_key) gas_for_locker_transfer)
      (Callback.on_sub_account_sold b.tla_id b.name b.buyer b.price b.deposit) gas_for_sold_callback

abbrev pub buy_promise : AccountId → PendingBuy → List AccountId → Promise
buy_promise sub_account b [] = settle_transfer sub_account b
buy_promise sub_account b (ft ∷ rest) =
    let allowlist = ft ∷ rest in
    record {
      calls = balance_queries sub_account allowlist;
      callback = some (Callback.on_buy_balances_checked b allowlist, gas_for_buy_balances_cb);
    }

unfoldable pub buy_sub_account :
    Env → AccountId → Text → PublicKey → Registry → Result ContractError Outcome
unfolding assert_not_paused assert_sale_idle assert_sellable resolve_and_lock_sale settle_transfer
buy_sub_account env tla_id name new_owner_key s = do
  assert_not_paused s
  let key = sub_account_key tla_id name
  assert_sale_idle key s
  _ ← assert_sellable env key tla_id s
  let buyer = env.predecessor
  let deposit = env.attached_deposit
  (price, s1) ← resolve_and_lock_sale key buyer deposit s
  err_if (not (env.is_account_id key)) ContractError.invalid_sub_account_id
  let settlement : PendingBuy = record {
    tla_id = tla_id;
    name = name;
    buyer = buyer;
    new_owner_key = new_owner_key;
    price = price;
    deposit = deposit;
  }
  ok (record { state = s1; promise = buy_promise key settlement s1.ft_allowlist })

-- types.rs
pub record ListingView : Type 0 where
  pub full_name : Text
  pub price_yocto : ℕ
  pub settling : Bool

pub record AcceptedOfferView : Type 0 where
  pub full_name : Text
  pub buyer : AccountId
  pub price_yocto : ℕ
  pub settling : Bool

abbrev view_listing : Text → Option Listing → Option ListingView
view_listing key none = none
view_listing key (some l) =
    some (record { full_name = key; price_yocto = l.price; settling = l.settling })

abbrev view_offer : Text → Option AcceptedOffer → Option AcceptedOfferView
view_offer key none = none
view_offer key (some o) =
    some (record { full_name = key; buyer = o.buyer; price_yocto = o.price; settling = o.settling })

unfoldable pub get_listing : AccountId → Text → Registry → Option ListingView
get_listing tla_id name s =
    let key = sub_account_key tla_id name in view_listing key (get key s.listings)

unfoldable pub get_accepted_offer : AccountId → Text → Registry → Option AcceptedOfferView
get_accepted_offer tla_id name s =
    let key = sub_account_key tla_id name in view_offer key (get key s.accepted_offers)
