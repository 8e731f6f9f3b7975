-- ===== src/System/Funding.antt =====
-- Which configuration a call or callback leaves, and that the promises that it leaves are funded.
use hos_tla.Base.{
  ℕ, ◌≤◌, ◌<◌, ◌≡◌, refl, Option, some, List, [], ◌∷◌, arith, Text, u128_max, ok, Result-cases, inl,
  inr,
}
use hos_tla.Types.{AccountId, PublicKey, FeeConfig}
use hos_tla.Types.Names.{sub_account_key}
use hos_tla.Registry.{Callback, Promise, PendingBuy, Env, Registry}
use hos_tla.Reclaim
use hos_tla.Marketplace
use hos_tla.System.{Op, call, with_promise, promise_only, Ending, resolve}
use hos_tla.System.Ledger.{IsFunded}
use hos_tla.System.Network.{Flight, sent_by_calls, launch}

abbrev pub config_after : Op → Registry → FeeConfig
config_after (Op.update_fee_config c) s = c
config_after _ s = s.fee_config

-- Only `update_fee_config` changes the configuration.
pub call-fee_config :
    (env : Env) (op : Op) (s t : Registry) (p : Option Promise)
    → call env op s ≡ ok (t, p)
    → t.fee_config ≡ config_after op s
unfolding call
call-fee_config env (Op.update_fee_config c) s t p h = ground arith
call-fee_config env _ s t p h = ground arith

abbrev pub AllFunded : FeeConfig → List Flight → Type 0
AllFunded config [] = Unit
AllFunded config (f ∷ fs) = IsFunded config f.sent f.callback × AllFunded config fs

queries_send_nothing :
    (account : AccountId) (l : List AccountId)
    → sent_by_calls (Reclaim.balance_queries account l) ≡ 0
queries_send_nothing account [] = refl
queries_send_nothing account (x ∷ l) = omega (arith, queries_send_nothing account l)

finalize_promise-AllFunded :
    (config : FeeConfig) (a n d : AccountId) (l : List AccountId)
    → AllFunded config (launch (some (Reclaim.finalize_promise a n d l)))
finalize_promise-AllFunded config a n d [] = (refl, tt)
finalize_promise-AllFunded config a n d (x ∷ l) =
    (queries_send_nothing (sub_account_key a n) (x ∷ l), tt)

buy_promise-AllFunded :
    (config : FeeConfig) (k : Text) (b : PendingBuy) (l : List AccountId)
    → b.price ≤ b.deposit
    → AllFunded config (launch (some (Marketplace.buy_promise k b l)))
unfolding Marketplace.settle_transfer
buy_promise-AllFunded config k b [] le = ((refl, le), tt)
buy_promise-AllFunded config k b (x ∷ l) le = ((queries_send_nothing k (x ∷ l), le), tt)

reclaim_finalize-AllFunded :
    (env : Env) (a : AccountId) (n : Text) (s t : Registry) (p : Option Promise)
    → promise_only s (Reclaim.reclaim_finalize env a n s) ≡ ok (t, p)
    → AllFunded s.fee_config (launch p)
unfolding Reclaim.reclaim_finalize
reclaim_finalize-AllFunded env a n s t p h =
    elim (Result-cases (Reclaim.reclaim_destination env a n s)) [
      | inl (d, e) ↦ ground (arith, finalize_promise-AllFunded s.fee_config a n d s.ft_allowlist)
      | inr (c, e) ↦ ground arith
    ]

locked_price-le :
    (k b : AccountId) (d price : ℕ) (s t : Registry)
    → Marketplace.resolve_and_lock_sale k b d s ≡ ok (price, t)
    → price ≤ d
unfolding Marketplace.resolve_and_lock_sale
locked_price-le k b d price s t h = ground arith

buy_sub_account-AllFunded :
    (env : Env) (a : AccountId) (n : Text) (k : PublicKey) (s t : Registry) (p : Option Promise)
    → with_promise (Marketplace.buy_sub_account env a n k s) ≡ ok (t, p)
    → AllFunded s.fee_config (launch p)
unfolding Marketplace.buy_sub_account
buy_sub_account-AllFunded env a n k s t p h =
    let key = sub_account_key a n in
    elim (Result-cases
      (Marketplace.resolve_and_lock_sale key env.predecessor env.attached_deposit s)) [
        | inl ((price, s1), e) ↦
            let b : PendingBuy = record {
              tla_id = a;
              name = n;
              buyer = env.predecessor;
              new_owner_key = k;
              price = price;
              deposit = env.attached_deposit;
            } in
            ground (
              arith,
              buy_promise-AllFunded s.fee_config key b s1.ft_allowlist,
              locked_price-le key env.predecessor env.attached_deposit price s s1,
            )
        | inr (c, e) ↦ ground arith
      ]

-- The promise that a method leaves is funded.
pub call-AllFunded :
    (env : Env) (op : Op) (s t : Registry) (p : Option Promise)
    → env.attached_deposit < u128_max
    → call env op s ≡ ok (t, p)
    → AllFunded (config_after op s) (launch p)
unfolding call
call-AllFunded env (Op.reclaim_finalize a n) s t p lt h = reclaim_finalize-AllFunded env a n s t p h
call-AllFunded env (Op.buy_sub_account a n k) s t p lt h =
    buy_sub_account-AllFunded env a n k s t p h
call-AllFunded env _ s t p lt h = ground arith

-- No callback changes the configuration.
pub resolve-fee_config :
    (env : Env) (e : Ending) (cb : Callback) (s t : Registry) (p : Option Promise)
    → resolve env e cb s ≡ ok (t, p)
    → t.fee_config ≡ s.fee_config
unfolding resolve
resolve-fee_config env e (Callback.on_claim_refund_settled c n) s t p h = ground arith
resolve-fee_config env e _ s t p h = ground arith

-- The promise that a callback leaves is funded, if its own was.
pub resolve-AllFunded :
    (env : Env) (e : Ending) (cb : Callback) (sent : ℕ) (s t : Registry) (p : Option Promise)
    → IsFunded s.fee_config sent cb
    → resolve env e cb s ≡ ok (t, p)
    → AllFunded s.fee_config (launch p)
unfolding resolve
resolve-AllFunded env e (Callback.on_claim_refund_settled c n) sent s t p f h = ground arith
resolve-AllFunded env e _ sent s t p f h = ground arith
