-- ===== src/Marketplace/Locking.antt =====
-- What a purchase that was admitted has checked and locked.
use hos_tla.Base.{
  ◌==◌, ℕ, ◌≤◌, ◌≡◌, ◌≢◌, ◌⊎◌, inl, inr, refl, true, false, none, some, arith, Text, eq_iff, ok,
  Option-cases, Result-cases, Bool-cases,
}
use hos_tla.Base.Maps.{get, get-insert_self}
use hos_tla.Types.{AccountId, PublicKey, Listing, AcceptedOffer}
use hos_tla.Types.Names.{sub_account_key}
use hos_tla.Registry.{Env, Registry, Outcome, PendingBuy}
use hos_tla.Marketplace.{
  assert_sale_idle, assert_sellable, list_sub_account, accept_offer, resolve_and_lock_sale,
  buy_sub_account, buy_promise, unlist_sub_account, revoke_offer,
}
use hos_tla.Marketplace.Sellable.{IsSellable, IsSellable-why}

-- An accepted offer to this buyer at this price.
abbrev pub Offered : Text → AccountId → ℕ → Registry → Type 0
Offered key buyer price s =
    (o : AcceptedOffer) × (get key s.accepted_offers ≡ some o)
    × (o.buyer ≡ buyer)
    × (o.price ≡ price)

-- A listing at this price, and no accepted offer to this buyer.
abbrev pub Listed : Text → AccountId → ℕ → Registry → Type 0
Listed key buyer price s =
    (l : Listing) × (get key s.listings ≡ some l)
    × (l.price ≡ price)
    × ((o : AcceptedOffer) → get key s.accepted_offers ≡ some o → o.buyer ≢ buyer)

-- A sale of the account is under way: its listing or the offer accepted for it is settling.
abbrev pub IsLocked : Text → Registry → Type 0
IsLocked key s =
    ((l : Listing) × (get key s.listings ≡ some l) × (l.settling ≡ true))
    ⊎ ((o : AcceptedOffer) × (get key s.accepted_offers ≡ some o) × (o.settling ≡ true))

-- The guard lets no account through that a sale has locked.
IsLocked-refused : (key : Text) (s : Registry) → IsLocked key s → assert_sale_idle key s ≢ ok tt
unfolding assert_sale_idle
IsLocked-refused key s (inl (l, e, settling)) h = ground arith
IsLocked-refused key s (inr (o, e, settling)) h = ground arith

offer_terms :
    (key buyer : AccountId) (d price : ℕ) (s t : Registry) (o : AcceptedOffer)
    → get key s.accepted_offers ≡ some o
    → o.buyer ≡ buyer
    → resolve_and_lock_sale key buyer d s ≡ ok (price, t)
    → Offered key buyer price s × (price ≤ d) × IsLocked key t
unfolding resolve_and_lock_sale
offer_terms key buyer d price s t o e b h = (
  (o, e, b, ground (arith, eq_iff o.buyer buyer)),
  ground (arith, eq_iff o.buyer buyer),
  inr (
    record o { settling = true },
    ground (
      arith,
      eq_iff o.buyer buyer,
      get-insert_self key (record o { settling = true }) s.accepted_offers,
    ),
    refl,
  ),
)

listing_terms :
    (key buyer : AccountId) (d price : ℕ) (s t : Registry) (l : Listing)
    → get key s.listings ≡ some l
    → ((o : AcceptedOffer) → get key s.accepted_offers ≡ some o → o.buyer ≢ buyer)
    → resolve_and_lock_sale key buyer d s ≡ ok (price, t)
    → Listed key buyer price s × (price ≤ d) × IsLocked key t
unfolding resolve_and_lock_sale
listing_terms key buyer d price s t l e other h = elim (Option-cases (get key s.accepted_offers)) [
  | inl f ↦ (
    (l, e, ground arith, other),
    ground arith,
    inl (
      record l { settling = true },
      ground (arith, get-insert_self key (record l { settling = true }) s.listings),
      refl,
    ),
  )
  | inr (o, f) ↦ (
    (l, e, ground (arith, other o f, eq_iff o.buyer buyer), other),
    ground (arith, other o f, eq_iff o.buyer buyer),
    inl (
      record l { settling = true },
      ground (
        arith,
        other o f,
        eq_iff o.buyer buyer,
        get-insert_self key (record l { settling = true }) s.listings,
      ),
      refl,
    ),
  )
]

no_listing_terms :
    (key buyer : AccountId) (d price : ℕ) (s t : Registry)
    → get key s.listings ≡ none
    → ((o : AcceptedOffer) → get key s.accepted_offers ≡ some o → o.buyer ≢ buyer)
    → resolve_and_lock_sale key buyer d s ≢ ok (price, t)
unfolding resolve_and_lock_sale
no_listing_terms key buyer d price s t e other h = elim (Option-cases (get key s.accepted_offers)) [
  | inl f ↦ ground arith
  | inr (o, f) ↦ ground (arith, other o f, eq_iff o.buyer buyer)
]

unbound_terms :
    (key buyer : AccountId) (d price : ℕ) (s t : Registry)
    → ((o : AcceptedOffer) → get key s.accepted_offers ≡ some o → o.buyer ≢ buyer)
    → resolve_and_lock_sale key buyer d s ≡ ok (price, t)
    → Listed key buyer price s × (price ≤ d) × IsLocked key t
unbound_terms key buyer d price s t other h = elim (Option-cases (get key s.listings)) [
  | inl e ↦ absurd (no_listing_terms key buyer d price s t e other h)
  | inr (l, e) ↦ listing_terms key buyer d price s t l e other h
]

other_buyer :
    (key buyer : AccountId) (s : Registry) (o u : AcceptedOffer)
    → get key s.accepted_offers ≡ some o
    → (o.buyer == buyer) ≡ false
    → get key s.accepted_offers ≡ some u
    → u.buyer ≢ buyer
other_buyer key buyer s o u e apart f g = ground (arith, eq_iff o.buyer buyer)

IsLocked-terms :
    (key buyer : AccountId) (d price : ℕ) (s t : Registry)
    → resolve_and_lock_sale key buyer d s ≡ ok (price, t)
    → (Offered key buyer price s ⊎ Listed key buyer price s) × (price ≤ d) × IsLocked key t
IsLocked-terms key buyer d price s t h = elim (Option-cases (get key s.accepted_offers)) [
  | inl e ↦
      let (a, b, c) = unbound_terms key buyer d price s t (λ o f. cc (e, f)) h in (inr a, b, c)
  | inr (o, e) ↦ elim (Bool-cases (o.buyer == buyer)) [
    | inl same ↦
        let (a, b, c) = offer_terms key buyer d price s t o e ((eq_iff o.buyer buyer).0 same) h in
        (inl a, b, c)
    | inr apart ↦
        let other = other_buyer key buyer s o in
        let (a, b, c) = unbound_terms key buyer d price s t (λ u. other u e apart) h in
        (inr a, b, c)
  ]
]

lock-allowlist :
    (key buyer : AccountId) (d price : ℕ) (s t : Registry)
    → resolve_and_lock_sale key buyer d s ≡ ok (price, t)
    → t.ft_allowlist ≡ s.ft_allowlist
unfolding resolve_and_lock_sale
lock-allowlist key buyer d price s t h = ground arith

-- What a purchase goes on with: the terms of the sale, as `buy_sub_account` hands them on.
abbrev pub settlement_of : Env → AccountId → Text → PublicKey → ℕ → PendingBuy
settlement_of env tla name k price = record {
  tla_id = tla;
  name = name;
  buyer = env.predecessor;
  new_owner_key = k;
  price = price;
  deposit = env.attached_deposit;
}

-- A purchase is admitted only while the contract runs and no sale of the account is under way, for
-- an account that is sellable, at the price of an offer to this buyer or else of the listing, and
-- with that price attached. It goes on at that very price and for the whole deposit: to the check
-- of the balances at the tokens of the allowlist or, where that is empty, to the transfer. It locks
-- the account against other sales, and leaves the sub-accounts and the pending refunds as they were.
pub purchase_admitted :
    (env : Env) (tla : AccountId) (name : Text) (k : PublicKey) (s : Registry) (o : Outcome)
    → buy_sub_account env tla name k s ≡ ok o
    → let key = sub_account_key tla name in
      let buyer = env.predecessor in
      (s.paused ≡ false)
      × (¬ IsLocked key s)
      × ((owner : AccountId) × IsSellable env key tla owner s)
      × ((price : ℕ) × (Offered key buyer price s ⊎ Listed key buyer price s)
          × (price ≤ env.attached_deposit)
          × (o.promise ≡ buy_promise key (settlement_of env tla name k price) s.ft_allowlist))
      × IsLocked key o.state
      × (o.state.sub_accounts ≡ s.sub_accounts)
      × (o.state.pending_refunds ≡ s.pending_refunds)
unfolding buy_sub_account
purchase_admitted env tla name k s o h =
    let key = sub_account_key tla name in
    let buyer = env.predecessor in
    let d = env.attached_deposit in
    elim (Result-cases (resolve_and_lock_sale key buyer d s)) [
      | inr (c, e) ↦ ground arith
      | inl ((price, t), e) ↦ elim (Result-cases (assert_sellable env key tla s)) [
        | inr (c, f) ↦ ground arith
        | inl (owner, f) ↦
            let (terms, paid, locked) = IsLocked-terms key buyer d price s t e in
            let same : o.state ≡ t = ground arith in
            let asked : o.promise
                ≡ buy_promise key (settlement_of env tla name k price) t.ft_allowlist =
              ground arith in
            let allowed = lock-allowlist key buyer d price s t e in
            let idle : assert_sale_idle key s ≡ ok tt = ground arith in
            (
              ground arith,
              λ l. IsLocked-refused key s l idle,
              (owner, IsSellable-why env key tla owner s f),
              (price, terms, paid, rw (← allowed) asked),
              rw same locked,
              ground arith,
              ground arith,
            )
      ]
    ]

abbrev IsIdle : Text → Registry → Type 0
IsIdle key s = assert_sale_idle key s ≡ ok tt

list-IsIdle :
    (env : Env) (tla : AccountId) (name : Text) (price : ℕ) (s t : Registry)
    → list_sub_account env tla name price s ≡ ok t
    → IsIdle (sub_account_key tla name) s
unfolding list_sub_account
list-IsIdle env tla name price s t h = ground arith

unlist-IsIdle :
    (env : Env) (tla : AccountId) (name : Text) (s t : Registry)
    → unlist_sub_account env tla name s ≡ ok t
    → IsIdle (sub_account_key tla name) s
unfolding unlist_sub_account
unlist-IsIdle env tla name s t h = ground arith

accept-IsIdle :
    (env : Env) (tla : AccountId) (name : Text) (buyer : AccountId) (price : ℕ) (s t : Registry)
    → accept_offer env tla name buyer price s ≡ ok t
    → IsIdle (sub_account_key tla name) s
unfolding accept_offer
accept-IsIdle env tla name buyer price s t h = ground arith

revoke-IsIdle :
    (env : Env) (tla : AccountId) (name : Text) (s t : Registry)
    → revoke_offer env tla name s ≡ ok t
    → IsIdle (sub_account_key tla name) s
unfolding revoke_offer
revoke-IsIdle env tla name s t h = ground arith

-- While the listing of an account or the offer accepted for it is settling, the account can be
-- neither bought, nor listed, nor taken off the list, and no offer for it can be accepted or
-- revoked.
pub IsLocked-blocks :
    (env : Env) (tla : AccountId) (name : Text) (s t : Registry) (o : Outcome) (k : PublicKey)
    (buyer : AccountId) (price : ℕ)
    → IsLocked (sub_account_key tla name) s
    → (buy_sub_account env tla name k s ≢ ok o)
      × (list_sub_account env tla name price s ≢ ok t)
      × (unlist_sub_account env tla name s ≢ ok t)
      × (accept_offer env tla name buyer price s ≢ ok t)
      × (revoke_offer env tla name s ≢ ok t)
IsLocked-blocks env tla name s t o k buyer price locked =
    let refused = IsLocked-refused (sub_account_key tla name) s locked in
    (
      λ h. (purchase_admitted env tla name k s o h).1 locked,
      λ h. refused (list-IsIdle env tla name price s t h),
      λ h. refused (unlist-IsIdle env tla name s t h),
      λ h. refused (accept-IsIdle env tla name buyer price s t h),
      λ h. refused (revoke-IsIdle env tla name s t h),
    )
