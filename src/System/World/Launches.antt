-- ===== src/System/World/Launches.antt =====
-- What the calls of the registry ask for, seen from one name.
use hos_tla.Base.{
  ℕ, ◌≡◌, refl, sym, subst, Bool, true, false, Option, some, List, [], ◌∷◌, arith, Text, Result, ok,
  err, Option-cases, Result-cases, inl, inr,
}
use hos_tla.Base.Maps.{get}
use hos_tla.Types.{AccountId, PublicKey}
use hos_tla.Types.Names.{sub_account_key}
use hos_tla.Registry.{ContractError, Call, Callback, PendingBuy, Promise, Registry, Env, Outcome}
use hos_tla.Core.{claim_refund}
use hos_tla.Rental.{rent_sub_account}
use hos_tla.Reclaim.{reclaim_finalize, reclaim_sweep_ft, export_sub_account, finalize_promise}
use hos_tla.Fees.{calculate_rent}
use hos_tla.Reclaim.Admission.{finalize_admitted}
use hos_tla.Marketplace.{resolve_and_lock_sale, buy_sub_account, buy_promise, settle_transfer}
use hos_tla.System.{Op, call, promise_only, with_promise}
use hos_tla.System.World.{Pending, requests}
use hos_tla.System.World.Requests.{one_at, owes, adds, total, AllFit}

-- The methods that wait for an answer.
abbrev pub is_asking : Op → Bool
is_asking Op.claim_refund = true
is_asking (Op.rent_sub_account _ _ _ _) = true
is_asking (Op.reclaim_sweep_ft _ _ _) = true
is_asking (Op.reclaim_finalize _ _) = true
is_asking (Op.export_sub_account _ _) = true
is_asking (Op.buy_sub_account _ _ _) = true
is_asking _ = false

no_requests :
    (env : Env) (op : Op) (s t : Registry) (p : Option Promise)
    → is_asking op ≡ false
    → call env op s ≡ ok (t, p)
    → requests p ≡ []
unfolding call
no_requests env Op.pause s t p u h = ground arith
no_requests env _ s t p u h = ground arith

-- What is launched is fit, owes the entry of the name `n` times, and adds no key as yet.
pub record Launches (key : Text) (n : ℕ) (qs : List Pending) : Type 0 where
  pub fit : AllFit qs
  pub owed : total (owes key) qs ≡ n
  pub adding : total (adds key) qs ≡ 0

module _ (key : Text) where
  finalize-Launches :
      (tla name d : Text) (l : List AccountId)
      → Launches key 0 (requests (some (finalize_promise tla name d l)))
  finalize-Launches tla name d [] = record { fit = (refl, tt); owed = refl; adding = refl }
  finalize-Launches tla name d (x ∷ l) = record { fit = (tt, tt); owed = refl; adding = refl }

  buy-Launches :
      (at : Text) (b : PendingBuy) (l : List AccountId)
      → Launches key 0 (requests (some (buy_promise at b l)))
  unfolding settle_transfer
  buy-Launches at b [] = record { fit = (tt, tt); owed = refl; adding = refl }
  buy-Launches at b (x ∷ l) = record { fit = (tt, tt); owed = refl; adding = refl }

  rent-Launches :
      (env : Env) (tla name : Text) (k : PublicKey) (w : AccountId) (s : Registry) (o : Outcome)
      → rent_sub_account env tla name k w s ≡ ok o
      → Launches key (one_at (sub_account_key tla name) key) (requests (some o.promise))
  unfolding rent_sub_account
  rent-Launches env tla name k w s o h =
      let deposit = s.fee_config.account_creation_deposit in
      elim (Option-cases (get tla s.tlas)) [
        | inl e ↦ absurd (ground arith)
        | inr (entry, e) ↦
            let rent = calculate_rent entry tla name s.fee_config in
            let asked : requests (some o.promise)
                ≡ Pending.asked (some (Call.create_sub_account tla name k deposit)) (
                    Callback.on_sub_account_created tla name env.predecessor rent
                      env.attached_deposit)
                  ∷ [] =
              ground arith in
            rw asked (record { fit = ((refl, refl), tt); owed = omega arith; adding = refl })
      ]

  claim-Launches :
      (env : Env) (s : Registry) (o : Outcome)
      → claim_refund env s ≡ ok o
      → Launches key 0 (requests (some o.promise))
  unfolding claim_refund
  claim-Launches env s o h = ground arith

  sweep-Launches :
      (env : Env) (tla name ft : Text) (s : Registry) (q : Promise)
      → reclaim_sweep_ft env tla name ft s ≡ ok q
      → Launches key 0 (requests (some q))
  unfolding reclaim_sweep_ft
  sweep-Launches env tla name ft s q h = ground arith

  export-Launches :
      (env : Env) (tla name : Text) (s : Registry) (q : Promise)
      → export_sub_account env tla name s ≡ ok q
      → Launches key 0 (requests (some q))
  unfolding export_sub_account
  export-Launches env tla name s q h = ground arith

  finalized-Launches :
      (env : Env) (tla name : Text) (s : Registry) (q : Promise)
      → reclaim_finalize env tla name s ≡ ok q
      → Launches key 0 (requests (some q))
  finalized-Launches env tla name s q h =
      let (d, _, same) = ((finalize_admitted env tla name s q).0 h).1 in
      subst (λ r. Launches key 0 (requests (some r))) (sym same)
        (finalize-Launches tla name d s.ft_allowlist)

  bought-Launches :
      (env : Env) (tla name : Text) (k : PublicKey) (s : Registry) (o : Outcome)
      → buy_sub_account env tla name k s ≡ ok o
      → Launches key 0 (requests (some o.promise))
  unfolding buy_sub_account
  bought-Launches env tla name k s o h =
      let at = sub_account_key tla name in
      let buyer = env.predecessor in
      let d = env.attached_deposit in
      elim (Result-cases (resolve_and_lock_sale at buyer d s)) [
        | inr (c, e) ↦ absurd (ground arith)
        | inl ((price, t), e) ↦
            let b : PendingBuy = record {
              tla_id = tla;
              name = name;
              buyer = buyer;
              new_owner_key = k;
              price = price;
              deposit = d;
            } in
            let asked : o.promise ≡ buy_promise at b t.ft_allowlist = ground arith in
            subst (λ r. Launches key 0 (requests (some r))) (sym asked)
              (buy-Launches at b t.ft_allowlist)
      ]

  promise_only-Launches :
      (n : ℕ) (s t : Registry) (r : Result ContractError Promise) (p : Option Promise)
      → ((q : Promise) → r ≡ ok q → Launches key n (requests (some q)))
      → promise_only s r ≡ ok (t, p)
      → Launches key n (requests p)
  promise_only-Launches n s t (ok q) p good h =
      let same : some q ≡ p = ground arith in rw (← same) (good q refl)
  promise_only-Launches n s t (err c) p good h = absurd (ground arith)

  with_promise-Launches :
      (n : ℕ) (t : Registry) (r : Result ContractError Outcome) (p : Option Promise)
      → ((o : Outcome) → r ≡ ok o → Launches key n (requests (some o.promise)))
      → with_promise r ≡ ok (t, p)
      → Launches key n (requests p)
  with_promise-Launches n t (ok o) p good h =
      let same : some o.promise ≡ p = ground arith in rw (← same) (good o refl)
  with_promise-Launches n t (err c) p good h = absurd (ground arith)

  -- How many entries a call makes.
  abbrev pub enters : Op → ℕ
  enters (Op.rent_sub_account t n _ _) = one_at (sub_account_key t n) key
  enters _ = 0

  -- What a call launches owes the entry that it has made.
  pub call-Launches :
      (env : Env) (op : Op) (s t : Registry) (p : Option Promise)
      → call env op s ≡ ok (t, p)
      → Launches key (enters op) (requests p)
  unfolding call
  call-Launches env Op.claim_refund s t p h =
      with_promise-Launches 0 t (claim_refund env s) p (λ o e. claim-Launches env s o e) h
  call-Launches env (Op.rent_sub_account a n k w) s t p h =
      with_promise-Launches (one_at (sub_account_key a n) key) t (rent_sub_account env a n k w s) p
        (λ o e. rent-Launches env a n k w s o e) h
  call-Launches env (Op.reclaim_sweep_ft a n f) s t p h =
      promise_only-Launches 0 s t (reclaim_sweep_ft env a n f s) p
        (λ q e. sweep-Launches env a n f s q e) h
  call-Launches env (Op.reclaim_finalize a n) s t p h =
      promise_only-Launches 0 s t (reclaim_finalize env a n s) p
        (λ q e. finalized-Launches env a n s q e) h
  call-Launches env (Op.export_sub_account a n) s t p h =
      promise_only-Launches 0 s t (export_sub_account env a n s) p
        (λ q e. export-Launches env a n s q e) h
  call-Launches env (Op.buy_sub_account a n k) s t p h =
      with_promise-Launches 0 t (buy_sub_account env a n k s) p
        (λ o e. bought-Launches env a n k s o e) h
  call-Launches env op s t p h =
      rw (no_requests env op s t p refl h) (record { fit = tt; owed = refl; adding = refl })
