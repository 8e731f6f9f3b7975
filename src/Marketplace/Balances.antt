-- ===== src/Marketplace/Balances.antt =====
-- A sale goes on to the locker only for an account that holds no allowlisted token.
use hos_tla.Base.{
  ◌≡◌, ◌↔◌, true, none, some, List, [], ◌∷◌, arith, Text, length, refl, u128_max, add_u128,
  unwrap_or, ◌+◌, ◌≤◌, ok, Option-cases, inl, inr,
}
use hos_tla.Types.{AccountId}
use hos_tla.Types.Names.{sub_account_key}
use hos_tla.Registry.{Env, Registry, BlockReason, PendingBuy, PromiseResult}
use hos_tla.Base.Maps.{get, get-insert_self}
use hos_tla.Core.{get_pending_refund}
use hos_tla.Marketplace.Settlement.{idle_listing-idle, idle_offer-idle}
use hos_tla.Marketplace.{settle_transfer, assert_sale_idle}
use hos_tla.Marketplace.Sale.{
  ft_balance_block_reason, first_sale_block, sale_block_reason, on_buy_balances_checked, abort_sale,
}

-- A query came back with the number 0.
abbrev pub IsZero : Env → PromiseResult → Type 0
IsZero env (PromiseResult.returned bytes) = env.from_slice bytes ≡ some 0
IsZero env PromiseResult.failed = ⊥
IsZero env PromiseResult.unverifiable = ⊥

abbrev pub AllZero : Env → List PromiseResult → Type 0
AllZero env [] = Unit
AllZero env (r ∷ rs) = IsZero env r × AllZero env rs

abort_refunds :
    (key : Text) (b : PendingBuy) (token : Text) (reason : BlockReason) (s : Registry)
    → s.total_pending_refunds + b.deposit ≤ u128_max
    → get_pending_refund b.buyer s ≤ s.total_pending_refunds
    → let t = abort_sale key b token reason s in
      (get_pending_refund b.buyer t ≡ get_pending_refund b.buyer s + b.deposit)
      × (t.sub_accounts ≡ s.sub_accounts)
      × (assert_sale_idle key t ≡ ok tt)
unfolding abort_sale get_pending_refund assert_sale_idle
abort_refunds key b token reason s fits le =
    let m = s.pending_refunds in
    (
      ground (arith, get-insert_self b.buyer (add_u128 (unwrap_or 0 (get b.buyer m)) b.deposit) m),
      ground arith,
      ground (arith, idle_listing-idle key s.listings, idle_offer-idle key s.accepted_offers),
    )

module _ (env : Env) where
  IsZero-passes : (r : PromiseResult) → IsZero env r → ft_balance_block_reason env r ≡ none
  unfolding ft_balance_block_reason
  IsZero-passes (PromiseResult.returned bytes) h = ground arith
  IsZero-passes PromiseResult.failed h = absurd h
  IsZero-passes PromiseResult.unverifiable h = absurd h

  passes-IsZero : (r : PromiseResult) → ft_balance_block_reason env r ≡ none → IsZero env r
  unfolding ft_balance_block_reason
  passes-IsZero (PromiseResult.returned bytes) h = ground arith
  passes-IsZero PromiseResult.failed h = cc
  passes-IsZero PromiseResult.unverifiable h = cc

  AllZero-pass :
      (l : List AccountId) (rs : List PromiseResult)
      → length rs ≡ length l
      → AllZero env rs
      → first_sale_block env l rs ≡ none
  unfolding first_sale_block
  AllZero-pass [] rs e h = refl
  AllZero-pass (x ∷ l) [] e h = absurd (omega arith)
  AllZero-pass (x ∷ l) (r ∷ rs) e h =
      ground (arith, IsZero-passes r h.0, AllZero-pass l rs (omega arith) h.1)

  pass-AllZero :
      (l : List AccountId) (rs : List PromiseResult)
      → length rs ≡ length l
      → first_sale_block env l rs ≡ none
      → AllZero env rs
  unfolding first_sale_block
  pass-AllZero l [] e h = tt
  pass-AllZero [] (r ∷ rs) e h = absurd (omega arith)
  pass-AllZero (x ∷ l) (r ∷ rs) e h = elim (Option-cases (ft_balance_block_reason env r)) [
    | inl f ↦ (passes-IsZero r f, pass-AllZero l rs (omega arith) (ground arith))
    | inr (b, f) ↦ absurd (ground arith)
  ]

  module _ (rs : List PromiseResult) (b : PendingBuy) (l : List AccountId) (s : Registry)
      (valid : env.is_account_id (sub_account_key b.tla_id b.name) ≡ true) where
    -- For a key that is an account id, the buyer's key is handed to the locker and the registry
    -- left unchanged exactly when there is one result for each allowlisted token and each is the
    -- number 0.
    pub transferred_iff_empty :
        (on_buy_balances_checked env rs b l s
          ≡ (s, some (settle_transfer (sub_account_key b.tla_id b.name) b)))
        ↔ ((length rs ≡ length l) × AllZero env rs)
    unfolding on_buy_balances_checked sale_block_reason
    transferred_iff_empty = (
      λ h. (ground arith, pass-AllZero l rs (ground arith) (ground arith)),
      λ h. ground (arith, AllZero-pass l rs h.0 h.1),
    )

    passed_state :
        sale_block_reason env l rs ≡ none
        → on_buy_balances_checked env rs b l s
          ≡ (s, some (settle_transfer (sub_account_key b.tla_id b.name) b))
    unfolding on_buy_balances_checked
    passed_state e = ground arith

    blocked_state :
        (token : Text) (reason : BlockReason)
        → sale_block_reason env l rs ≡ some (token, reason)
        → on_buy_balances_checked env rs b l s
          ≡ (abort_sale (sub_account_key b.tla_id b.name) b token reason s, none)
    unfolding on_buy_balances_checked
    blocked_state token reason e = ground arith

    -- For a key that is an account id, if the answers are not one number 0 for each allowlisted
    -- token, the sale is given up: nothing goes to the locker, the buyer is credited the whole
    -- deposit as long as the refunds stay in range, the sub-accounts stay as they were, and no
    -- sale of the account is under way any more.
    pub blocked_sale_refunds :
        ¬ ((length rs ≡ length l) × AllZero env rs)
        → s.total_pending_refunds + b.deposit ≤ u128_max
        → get_pending_refund b.buyer s ≤ s.total_pending_refunds
        → let r = on_buy_balances_checked env rs b l s in
          (r.1 ≡ none)
          × ((get_pending_refund b.buyer r.0 ≡ get_pending_refund b.buyer s + b.deposit)
              × (r.0.sub_accounts ≡ s.sub_accounts)
              × (assert_sale_idle (sub_account_key b.tla_id b.name) r.0 ≡ ok tt))
    blocked_sale_refunds occupied fits le = elim (Option-cases (sale_block_reason env l rs)) [
      | inl passed ↦ absurd (occupied (transferred_iff_empty.0 (passed_state passed)))
      | inr ((token, reason), e) ↦
          rw (blocked_state token reason e)
            (refl, abort_refunds (sub_account_key b.tla_id b.name) b token reason s fits le)
    ]
