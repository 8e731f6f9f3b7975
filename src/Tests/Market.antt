-- ===== src/Tests/Market.antt =====
-- Witnesses for the marketplace: `alice.fun` is listed and bought by `bob.near`.
use hos_tla.Base.{
  ℕ, ◌*◌, ◌/◌, ◌+◌, ◌-◌, ◌≡◌, ◌≢◌, inl, refl, true, false, Option, none, some, List, [], ◌∷◌, arith,
  Text, text, text_eq, length, ok, err, Result, if◌then◌else◌, ◌==◌,
}
use hos_tla.Base.Maps.{get, insert, remove}
use hos_tla.Base.Sets.{contains}
use hos_tla.Types.{one_near}
use hos_tla.Types.Names.{sub_account_key}
use hos_tla.Types.Lifecycle.{effective_sub_lifecycle}
use hos_tla.Registry.{ContractError, Registry, Outcome, Promise}
use hos_tla.Marketplace.{assert_sellable, list_sub_account, buy_sub_account, assert_sale_idle}
use hos_tla.Marketplace.Sale.{commission_of, on_sub_account_sold}
use hos_tla.Marketplace.Locking.{IsLocked, purchase_admitted, IsLocked-blocks}
use hos_tla.Marketplace.Settlement.{
  commission_exact, deposit_divided, credited, failed_sale_restores,
}
use hos_tla.Fees.{default_fee_config}
use hos_tla.Core.{get_pending_refund}
use hos_tla.Registry.{PromiseResult, PendingBuy}
use hos_tla.Marketplace.{settle_transfer}
use hos_tla.Marketplace.Sale.{on_buy_balances_checked}
use hos_tla.Marketplace.Balances.{AllZero, transferred_iff_empty, blocked_sale_refunds}
use hos_tla.Tests.Scenario.{hos, alice, bob, fun, name, key, env_of, rented, alice_entry}

abbrev price : ℕ
price = 5 * one_near

abbrev pub listed : Registry
listed = record rented {
  fee_config = record default_fee_config { resale_commission_bps = 250 };
  ft_allowlist = text "usdt.near" ∷ [];
  listings = (key, record { price = price; settling = false }) ∷ [];
}

abbrev locked : Registry
locked = record listed { listings = (key, record { price = price; settling = true }) ∷ [] }

abbrev buyer_key : Text
buyer_key = text "ed25519:bob"

abbrev listing_alice : Result ContractError Registry
listing_alice = list_sub_account (env_of alice 1 300) fun name price rented

abbrev pub outcome_of : Registry → Result ContractError Outcome → Outcome
outcome_of s (ok o) = o
outcome_of s (err _) = record { state = s; promise = record { calls = []; callback = none } }

abbrev pub registry_of : Registry → Result ContractError Registry → Registry
registry_of s (ok t) = t
registry_of s (err _) = s

abbrev pub bought : Outcome
bought =
    outcome_of listed (buy_sub_account (env_of bob (7 * one_near) 300) fun name buyer_key listed)

purchase_admitted_example : IsLocked key bought.state
unfolding buy_sub_account contains get insert remove text_eq sub_account_key effective_sub_lifecycle
    assert_sellable
purchase_admitted_example =
    (purchase_admitted (env_of bob (7 * one_near) 300) fun name buyer_key listed bought refl).4

under_sale : IsLocked (sub_account_key fun name) locked
unfolding get text_eq sub_account_key
under_sale = inl (record { price = price; settling = true }, refl, refl)

IsLocked-blocks_example :
    (buy_sub_account (env_of bob (7 * one_near) 310) fun name buyer_key locked ≢ ok bought)
    × (list_sub_account (env_of alice 1 310) fun name price locked ≢ ok listed)
unfolding get text_eq sub_account_key assert_sale_idle
IsLocked-blocks_example =
    let b =
      IsLocked-blocks (env_of bob (7 * one_near) 310) fun name locked listed bought buyer_key bob
        price under_sale in
    let l =
      IsLocked-blocks (env_of alice 1 310) fun name locked listed bought buyer_key bob price
        under_sale in
    (b.0, l.1)

abbrev selling : Registry
selling = registry_of rented listing_alice

commission_exact_example : commission_of price listed ≡ price * 250 / 10_000
commission_exact_example = commission_exact price listed (omega arith) (omega arith)

abbrev sold : Registry
sold = on_sub_account_sold true fun name bob price (7 * one_near) locked

deposit_divided_example :
    let commission = commission_of price locked in
    (sold.total_revenue ≡ locked.total_revenue + commission)
    × (sold.total_pending_refunds
        ≡ locked.total_pending_refunds + (price - commission) + (7 * one_near - price))
    × (commission + (price - commission) + (7 * one_near - price) ≡ 7 * one_near)
unfolding get text_eq sub_account_key
deposit_divided_example =
    deposit_divided fun name bob price (7 * one_near) locked alice_entry refl (omega arith)
      (omega arith)

credited_example :
    get_pending_refund alice sold
    ≡ get_pending_refund alice locked
      + (if alice == alice then price - commission_of price locked else 0)
      + (if bob == alice then 7 * one_near - price else 0)
unfolding get text_eq sub_account_key get_pending_refund
credited_example =
    credited fun name bob price (7 * one_near) locked alice_entry refl (ground arith) (omega arith)
      (omega arith) alice (omega arith)

abbrev given_up : Registry
given_up = on_sub_account_sold false fun name bob price (7 * one_near) locked

failed_sale_restores_example :
    (get_pending_refund bob given_up ≡ get_pending_refund bob locked + 7 * one_near)
    × (given_up.sub_accounts ≡ locked.sub_accounts)
    × (given_up.total_revenue ≡ locked.total_revenue)
    × (assert_sale_idle (sub_account_key fun name) given_up ≡ ok tt)
unfolding get get_pending_refund
failed_sale_restores_example =
    failed_sale_restores fun name bob price (7 * one_near) locked (omega arith) (omega arith)

-- The sale with one allowlisted token to query.
abbrev pending : PendingBuy
pending = record {
  tla_id = fun;
  name = name;
  buyer = bob;
  new_owner_key = buyer_key;
  price = price;
  deposit = 7 * one_near;
}

abbrev answer_of : ℕ → List PromiseResult
answer_of n = PromiseResult.returned (n ∷ []) ∷ []

transferred_iff_empty_example :
    on_buy_balances_checked (env_of hos 0 310) (answer_of 0) pending locked.ft_allowlist locked
    ≡ (locked, some (settle_transfer (sub_account_key fun name) pending))
transferred_iff_empty_example =
    (transferred_iff_empty (env_of hos 0 310) (answer_of 0) pending locked.ft_allowlist locked
        refl).1
      (refl, (refl, tt))

abbrev blocked : Registry × Option Promise
blocked =
    on_buy_balances_checked (env_of hos 0 310) (answer_of 4) pending locked.ft_allowlist locked

some_left : ¬ (
    (length (answer_of 4) ≡ length locked.ft_allowlist) × AllZero (env_of hos 0 310) (answer_of 4))
some_left (_, (z, _)) = ground (arith, z)

blocked_sale_refunds_example :
    (blocked.1 ≡ none)
    × ((get_pending_refund bob blocked.0 ≡ get_pending_refund bob locked + 7 * one_near)
        × (blocked.0.sub_accounts ≡ locked.sub_accounts)
        × (assert_sale_idle (sub_account_key fun name) blocked.0 ≡ ok tt))
unfolding get get_pending_refund
blocked_sale_refunds_example =
    blocked_sale_refunds (env_of hos 0 310) (answer_of 4) pending locked.ft_allowlist locked refl
      some_left (omega arith) (omega arith)
