-- ===== src/System/Locks/Released.antt =====
-- The callbacks of a sale release its lock.
use hos_tla.Base.{
  ◌==◌, ℕ, ◌≤◌, ◌<◌, ◌≡◌, inl, inr, Bool, true, false, Option, List, [], ◌∷◌, ◌++◌, arith, Text,
  eq_iff, eq_refl, if◌then◌else◌, ok, err, Option-cases, Bool-cases,
}
use hos_tla.Base.Maps.{Map, get, get-insert, get-remove}
use hos_tla.Types.{AccountId, Listing, AcceptedOffer}
use hos_tla.Types.Names.{sub_account_key}
use hos_tla.Registry.{
  Callback, PendingBuy, Promise, PromiseResult, BlockReason, ContractError, Registry, Env,
}
use hos_tla.Marketplace.{listing_settling, offer_settling, settle_transfer}
use hos_tla.Marketplace.Sale.{
  idle_listing, idle_offer, clear_settling, abort_sale, on_sub_account_sold,
  on_buy_balances_checked, sale_block_reason,
}
use hos_tla.Reclaim.{on_reclaim_finalized, on_export_settled}
use hos_tla.System.{Ending, resolve}
use hos_tla.System.Network.{
  launch, Network, start, Step, called, refused, resolved, panicked, Reach, Reach_induction,
}
use hos_tla.System.Locks.{is_settling, sells, sales, sales-append, call-settling}

idle_listing-settling :
    (key at : Text) (m : Map Listing)
    → listing_settling (get key (idle_listing at m (get at m)))
      ≡ (if at == key then false else listing_settling (get key m))
idle_listing-settling key at m = elim (Option-cases (get at m)) [
  | inl e ↦ ground (arith, eq_iff at key)
  | inr (l, e) ↦ ground (arith, eq_iff at key, get-insert at key (record l { settling = false }) m)
]

idle_offer-settling :
    (key at : Text) (m : Map AcceptedOffer)
    → offer_settling (get key (idle_offer at m (get at m)))
      ≡ (if at == key then false else offer_settling (get key m))
idle_offer-settling key at m = elim (Option-cases (get at m)) [
  | inl e ↦ ground (arith, eq_iff at key)
  | inr (o, e) ↦ ground (arith, eq_iff at key, get-insert at key (record o { settling = false }) m)
]

-- The end of a sale, whichever it is, releases the lock of its account and no other.
pub sold-settling :
    (success : Bool) (key tla name : Text) (buyer : AccountId) (price deposit : ℕ) (s : Registry)
    → is_settling key (on_sub_account_sold success tla name buyer price deposit s)
      ≡ (if sub_account_key tla name == key then false else is_settling key s)
unfolding on_sub_account_sold clear_settling
sold-settling true key tla name buyer price deposit s =
    let at = sub_account_key tla name in
    elim (Option-cases (get at s.sub_accounts)) [
      | inl e ↦ ground (
        arith,
        idle_listing-settling key at s.listings,
        idle_offer-settling key at s.accepted_offers,
      )
      | inr (sub, e) ↦
          ground (arith, get-remove at key s.listings, get-remove at key s.accepted_offers)
    ]
sold-settling false key tla name buyer price deposit s =
    let at = sub_account_key tla name in
    ground
      (arith, idle_listing-settling key at s.listings, idle_offer-settling key at s.accepted_offers)

abort-settling :
    (key at token : Text) (reason : BlockReason) (b : PendingBuy) (s : Registry)
    → is_settling key (abort_sale at b token reason s)
      ≡ (if at == key then false else is_settling key s)
unfolding abort_sale clear_settling
abort-settling key at token reason b s =
    ground
      (arith, idle_listing-settling key at s.listings, idle_offer-settling key at s.accepted_offers)

-- The check of the balances releases it, or goes on with the sale.
checked-settling :
    (env : Env) (rs : List PromiseResult) (key : Text) (b : PendingBuy) (l : List AccountId)
    (s t : Registry) (p : Option Promise)
    → on_buy_balances_checked env rs b l s ≡ (t, p)
    → (is_settling key t ≡ true → is_settling key s ≡ true)
      × (is_settling key t ≡ true
          → sub_account_key b.tla_id b.name ≡ key
          → sales key (launch p) ≡ 1)
unfolding on_buy_balances_checked settle_transfer
checked-settling env rs key b l s t p h =
    let at = sub_account_key b.tla_id b.name in
    elim (Option-cases (sale_block_reason env l rs)) [
      | inr ((token, reason), e) ↦ (
        λ k. ground (arith, abort-settling key at token reason b s, eq_iff at key),
        λ k same. ground (arith, abort-settling key at token reason b s, eq_iff at key),
      )
      | inl e ↦ elim (Bool-cases (env.is_account_id at)) [
        | inl v ↦ (λ k. ground arith, λ k same. ground (arith, eq_refl at))
        | inr v ↦ (
          λ k. ground (
            arith,
            abort-settling key at [] BlockReason.invalid_sub_account_id b s,
            eq_iff at key,
          ),
          λ k same. ground (
            arith,
            abort-settling key at [] BlockReason.invalid_sub_account_id b s,
            eq_iff at key,
          ),
        )
      ]
    ]

-- No callback sets a lock, and one of a sale keeps it only if it goes on with the sale.
pub resolve-settling :
    (env : Env) (e : Ending) (key : Text) (cb : Callback) (s t : Registry) (p : Option Promise)
    → resolve env e cb s ≡ ok (t, p)
    → is_settling key t ≡ true
    → (is_settling key s ≡ true) × (sells key cb ≤ sales key (launch p))
unfolding resolve on_reclaim_finalized on_export_settled
resolve-settling env e key (Callback.on_reclaim_finalized a n d) s t p h k =
    let at = sub_account_key a n in
    ground (arith, get-remove at key s.listings, get-remove at key s.accepted_offers)
resolve-settling env e key (Callback.on_export_settled a n) s t p h k =
    let at = sub_account_key a n in
    ground (arith, get-remove at key s.listings, get-remove at key s.accepted_offers)
resolve-settling env e key (Callback.on_buy_balances_checked b l) s t p h k =
    let at = sub_account_key b.tla_id b.name in
    let r = checked-settling env e.results key b l s t p (ground arith) in
    (r.0 k, ground (arith, eq_iff at key, r.1 k))
resolve-settling env e key (Callback.on_sub_account_sold a n b d q) s t p h k =
    let at = sub_account_key a n in
    ground (arith, sold-settling e.success key a n b d q s, eq_iff at key)
resolve-settling env e key _ s t p h k = ground arith

-- The callbacks of a sale never panic.
pub panicked-sells :
    (env : Env) (e : Ending) (key : Text) (cb : Callback) (s : Registry) (c : ContractError)
    → resolve env e cb s ≡ err c
    → sells key cb ≡ 0
unfolding resolve
panicked-sells env e key (Callback.on_buy_balances_checked b l) s c h = absurd (ground arith)
panicked-sells env e key _ s c h = ground arith

-- Every lock is to be released.
abbrev pub IsReleasable : Network → Type 0
IsReleasable n = (key : Text) → is_settling key n.registry ≡ true → 0 < sales key n.in_flight

Step-IsReleasable : (n m : Network) → Step n m → IsReleasable n → IsReleasable m
Step-IsReleasable _ _ (called n env op t p h timely fits) r key k =
    elim (Bool-cases (is_settling key n.registry)) [
      | inl old ↦ omega (arith, sales-append key (launch p) n.in_flight, r key old)
      | inr idle ↦ omega (
        arith,
        sales-append key (launch p) n.in_flight,
        call-settling env key op n.registry t p h idle k,
      )
    ]
Step-IsReleasable _ _ (refused n env op c h) r key k = r key k
Step-IsReleasable _ _ (resolved n env e before f after t p split h) r key k =
    let (old, carried) = resolve-settling env e key f.callback n.registry t p h k in
    omega (
      arith,
      rw split at r key old,
      sales-append key before (f ∷ after),
      sales-append key before after,
      sales-append key (launch p) (before ++ after),
      carried,
    )
Step-IsReleasable _ _ (panicked n env e before f after c split h) r key k = omega (
  arith,
  rw split at r key k,
  sales-append key before (f ∷ after),
  sales-append key before after,
  panicked-sells env e key f.callback n.registry c h,
)

start-IsReleasable : (admin : AccountId) → IsReleasable (start admin)
unfolding get
start-IsReleasable admin key k = cc

-- In every state that the deployed contract reaches, an account that is locked by a sale has a
-- callback of that sale to come.
pub always-IsReleasable :
    (admin : AccountId) (n : Network) (key : Text)
    → Reach (start admin) n
    → is_settling key n.registry ≡ true
    → 0 < sales key n.in_flight
always-IsReleasable admin n key r =
    Reach_induction IsReleasable Step-IsReleasable (start-IsReleasable admin) r key
