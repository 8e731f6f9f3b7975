-- ===== src/System/Locks.antt =====
-- The sale locks and the callbacks that release them.
pub mod Released
pub mod Drained
use hos_tla.Base.{
  ◌==◌, ℕ, ◌+◌, ◌≤◌, ◌<◌, ◌≡◌, ◌≢◌, ◌⊎◌, inl, inr, refl, Bool, true, false, ◌||◌, Option, none,
  some, List, [], ◌∷◌, ◌++◌, arith, Text, eq_iff, eq_refl, if◌then◌else◌, ok, err, Option-cases,
  Result-cases, Bool-cases,
}
use hos_tla.Base.Maps.{Map, get, get-insert, get-remove}
use hos_tla.Types.{AccountId, PublicKey, Listing, AcceptedOffer}
use hos_tla.Types.Names.{sub_account_key}
use hos_tla.Registry.{Callback, PendingBuy, Promise, Registry, Env, Outcome}
use hos_tla.Marketplace.{
  listing_settling, offer_settling, list_sub_account, unlist_sub_account, accept_offer,
  revoke_offer, resolve_and_lock_sale, buy_sub_account, buy_promise, settle_transfer,
}
use hos_tla.Marketplace.Sale.{idle_listing, idle_offer, clear_settling}
use hos_tla.System.{Op, call, Ending, resolve}
use hos_tla.System.Network.{Flight, launch}

-- A sale of the account is under way: the test of `assert_sale_idle`.
abbrev pub is_settling : Text → Registry → Bool
is_settling key s =
    listing_settling (get key s.listings) || offer_settling (get key s.accepted_offers)

-- The key of the account whose sale a callback carries on or ends.
abbrev pub sells : Text → Callback → ℕ
sells key (Callback.on_buy_balances_checked b _) =
    if sub_account_key b.tla_id b.name == key then 1 else 0
sells key (Callback.on_sub_account_sold t n _ _ _) = if sub_account_key t n == key then 1 else 0
sells key _ = 0

-- How many callbacks of sales of the account are to come.
abbrev pub sales : Text → List Flight → ℕ
sales key [] = 0
sales key (f ∷ fs) = sells key f.callback + sales key fs

pub sales-append :
    (key : Text) (fs gs : List Flight) → sales key (fs ++ gs) ≡ sales key fs + sales key gs
sales-append key [] gs = omega arith
sales-append key (f ∷ fs) gs = omega (arith, sales-append key fs gs)

-- The methods that touch the terms of a sale.
abbrev pub is_sale_op : Op → Bool
is_sale_op (Op.list_sub_account _ _ _) = true
is_sale_op (Op.unlist_sub_account _ _) = true
is_sale_op (Op.accept_offer _ _ _ _) = true
is_sale_op (Op.revoke_offer _ _) = true
is_sale_op (Op.buy_sub_account _ _ _) = true
is_sale_op _ = false

pub call-same_terms :
    (env : Env) (op : Op) (s t : Registry) (p : Option Promise)
    → is_sale_op op ≡ false
    → call env op s ≡ ok (t, p)
    → (t.listings ≡ s.listings) × (t.accepted_offers ≡ s.accepted_offers)
unfolding call
call-same_terms env (Op.pause) s t p u h = ground arith
call-same_terms env _ s t p u h = ground arith

module _ (env : Env) (key tla name : Text) (s t : Registry) where
  list-settling :
      (price : ℕ)
      → list_sub_account env tla name price s ≡ ok t
      → is_settling key t ≡ true
      → is_settling key s ≡ true
  unfolding list_sub_account
  list-settling price h k =
      let at = sub_account_key tla name in
      ground (
        arith,
        eq_iff at key,
        get-insert at key (record { price = price; settling = false }) s.listings,
      )

  unlist-settling :
      unlist_sub_account env tla name s ≡ ok t → is_settling key t ≡ true → is_settling key s ≡ true
  unfolding unlist_sub_account
  unlist-settling h k = ground (arith, get-remove (sub_account_key tla name) key s.listings)

  accept-settling :
      (buyer : AccountId) (price : ℕ)
      → accept_offer env tla name buyer price s ≡ ok t
      → is_settling key t ≡ true
      → is_settling key s ≡ true
  unfolding accept_offer
  accept-settling buyer price h k =
      let at = sub_account_key tla name in
      ground (
        arith,
        eq_iff at key,
        get-insert at key (record { buyer = buyer; price = price; settling = false })
            s.accepted_offers,
      )

  revoke-settling :
      revoke_offer env tla name s ≡ ok t → is_settling key t ≡ true → is_settling key s ≡ true
  unfolding revoke_offer
  revoke-settling h k = ground (arith, get-remove (sub_account_key tla name) key s.accepted_offers)

lock-settling :
    (key at : Text) (buyer : AccountId) (d price : ℕ) (s t : Registry)
    → resolve_and_lock_sale at buyer d s ≡ ok (price, t)
    → at ≢ key
    → is_settling key t ≡ true
    → is_settling key s ≡ true
unfolding resolve_and_lock_sale
lock-settling key at buyer d price s t h apart k = elim (Option-cases (get at s.accepted_offers)) [
  | inl e ↦ elim (Option-cases (get at s.listings)) [
    | inl f ↦ ground arith
    | inr (l, f) ↦
        ground (arith, eq_iff at key, get-insert at key (record l { settling = true }) s.listings)
  ]
  | inr (o, e) ↦ elim (Option-cases (get at s.listings)) [
    | inl f ↦
        ground
          (arith, eq_iff at key, get-insert at key (record o { settling = true }) s.accepted_offers)
    | inr (l, f) ↦ ground (
      arith,
      eq_iff at key,
      get-insert at key (record l { settling = true }) s.listings,
      get-insert at key (record o { settling = true }) s.accepted_offers,
    )
  ]
]

buy_promise-sales :
    (key at : Text) (b : PendingBuy) (l : List AccountId)
    → sub_account_key b.tla_id b.name ≡ key
    → sales key (launch (some (buy_promise at b l))) ≡ 1
unfolding settle_transfer
buy_promise-sales key at b [] e = rw (e, eq_refl key) refl
buy_promise-sales key at b (ft ∷ rest) e = rw (e, eq_refl key) refl

-- A purchase launches a callback of the sale of its account.
buy-settling :
    (env : Env) (key tla name : Text) (k : PublicKey) (s : Registry) (o : Outcome)
    → buy_sub_account env tla name k s ≡ ok o
    → is_settling key s ≡ false
    → is_settling key o.state ≡ true
    → 0 < sales key (launch (some o.promise))
unfolding buy_sub_account
buy-settling env key tla name k s o h idle locked =
    let at = sub_account_key tla name in
    let buyer = env.predecessor in
    let d = env.attached_deposit in
    elim (Result-cases (resolve_and_lock_sale at buyer d s)) [
      | inr (c, e) ↦ absurd (ground arith)
      | inl ((price, t), e) ↦
          let same : o.state ≡ t = ground arith in
          elim (Bool-cases (at == key)) [
            | inl here ↦
                let b : PendingBuy = record {
                  tla_id = tla;
                  name = name;
                  buyer = buyer;
                  new_owner_key = k;
                  price = price;
                  deposit = d;
                } in
                let asked : o.promise ≡ buy_promise at b t.ft_allowlist = ground arith in
                rw asked (
                  omega (arith, buy_promise-sales key at b t.ft_allowlist ((eq_iff at key).0 here)))
            | inr there ↦ absurd (
                cc (
                  idle,
                  lock-settling key at buyer d price s t e
                      (λ same_key. cc (there, (eq_iff at key).1 same_key)) (rw same at locked),
                ))
          ]
    ]

-- A call sets a lock only if it launches the sale.
pub call-settling :
    (env : Env) (key : Text) (op : Op) (s t : Registry) (p : Option Promise)
    → call env op s ≡ ok (t, p)
    → is_settling key s ≡ false
    → is_settling key t ≡ true
    → 0 < sales key (launch p)
unfolding call
call-settling env key (Op.list_sub_account a n d) s t p h idle k =
    absurd (cc (idle, list-settling env key a n s t d (ground arith) k))
call-settling env key (Op.unlist_sub_account a n) s t p h idle k =
    absurd (cc (idle, unlist-settling env key a n s t (ground arith) k))
call-settling env key (Op.accept_offer a n b d) s t p h idle k =
    absurd (cc (idle, accept-settling env key a n s t b d (ground arith) k))
call-settling env key (Op.revoke_offer a n) s t p h idle k =
    absurd (cc (idle, revoke-settling env key a n s t (ground arith) k))
call-settling env key (Op.buy_sub_account a n kk) s t p h idle k =
    elim (Result-cases (buy_sub_account env a n kk s)) [
      | inr (c, e) ↦ absurd (ground arith)
      | inl (o, e) ↦
          let same : o.state ≡ t = ground arith in
          let asked : some o.promise ≡ p = ground arith in
          rw (← asked) (buy-settling env key a n kk s o e idle (rw (← same) at k))
    ]
call-settling env key op s t p h idle k =
    let (same_listings, same_offers) = call-same_terms env op s t p refl h in
    absurd (cc (idle, k, same_listings, same_offers))
