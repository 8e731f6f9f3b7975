-- ===== src/System/Ledger/Callbacks.antt =====
-- Every callback of a funded promise owes after it no more than before it, less what was spent.
use hos_tla.Base.{
  ℕ, ◌+◌, ◌-◌, ◌≤◌, ◌≡◌, ◌<◌, none, some, arith, ok, Option, Bool, true, false, inl, inr,
  Option-cases, add_u128, u128_max, Text, List, [],
}
use hos_tla.Base.Maps.{get}
use hos_tla.Types.{AccountId}
use hos_tla.Types.Names.{sub_account_key}
use hos_tla.Registry.{
  Registry, Env, Promise, Callback, PendingBuy, PromiseResult, BlockReason, add_pending_refund,
  refund_excess,
}
use hos_tla.Core
use hos_tla.Business
use hos_tla.Rental
use hos_tla.Marketplace
use hos_tla.Marketplace.Sale
use hos_tla.System.{Ending, resolve, plain}
use hos_tla.System.Ledger.{
  held, IsLedger, Moves, IsFunded, spent, refunded-IsLedger, excess-IsLedger,
}

-- A callback that leaves the ledger alone.
frame-Moves :
    (d : ℕ) (s t : Registry) (p : Option Promise)
    → IsLedger s
    → t.total_revenue ≡ s.total_revenue
    → t.pending_refunds ≡ s.pending_refunds
    → t.total_pending_refunds ≡ s.total_pending_refunds
    → Moves d 0 s t none
frame-Moves d s t p l r q e = ground arith

on_claim_refund_settled-Moves :
    (success : Bool) (c : AccountId) (n : ℕ) (s : Registry)
    → IsLedger s
    → Moves n (spent success n) s (Core.on_claim_refund_settled success c n s) none
unfolding Core.on_claim_refund_settled
on_claim_refund_settled-Moves true c n s l = ground arith
on_claim_refund_settled-Moves false c n s l =
    let t = Core.on_claim_refund_settled false c n s in
    record {
      owed = ground arith;
      ledger = λ fits. refunded-IsLedger c n s t l (omega arith) (ground arith) (ground arith);
    }

on_sub_account_created-Moves :
    (success : Bool) (tla : AccountId) (n : Text) (c : AccountId) (rent attached sent : ℕ)
    (s t : Registry) (p : Option Promise)
    → IsLedger s
    → attached < u128_max
    → IsFunded s.fee_config sent (Callback.on_sub_account_created tla n c rent attached)
    → plain (Rental.on_sub_account_created success tla n c rent attached s) ≡ ok (t, p)
    → Moves attached (spent success sent) s t p
unfolding Rental.on_sub_account_created Business.decrement_if_business
on_sub_account_created-Moves true tla n c rent attached sent s t p l lt f h =
    let charged = add_u128 rent s.fee_config.account_creation_deposit in
    record {
      owed = ground arith;
      ledger = λ fits.
          excess-IsLedger c (attached - charged) s t l (omega arith) (ground arith) (ground arith);
    }
on_sub_account_created-Moves false tla n c rent attached sent s t p l lt f h = record {
  owed = ground arith;
  ledger = λ fits. refunded-IsLedger c attached s t l (omega arith) (ground arith) (ground arith);
}

-- Two refunds in a row: the seller's proceeds, and the buyer's excess.
two_refunds-IsLedger :
    (a b : AccountId) (n k : ℕ) (s t : Registry)
    → IsLedger s
    → s.total_pending_refunds + n + k ≤ u128_max
    → t.pending_refunds ≡ (refund_excess b k (add_pending_refund a n s)).pending_refunds
    → t.total_pending_refunds ≡ (refund_excess b k (add_pending_refund a n s)).total_pending_refunds
    → IsLedger t
unfolding add_pending_refund
two_refunds-IsLedger a b n k s t l fits e f =
    let s1 = add_pending_refund a n s in
    excess-IsLedger b k s1 t
      (refunded-IsLedger a n s s1 l (omega arith) (ground arith) (ground arith)) (ground arith) e f

on_sub_account_sold-Moves :
    (success : Bool) (tla : AccountId) (n : Text) (b : AccountId) (price deposit : ℕ) (s : Registry)
    → IsLedger s
    → price ≤ deposit
    → Moves deposit 0 s (Sale.on_sub_account_sold success tla n b price deposit s) none
unfolding Sale.on_sub_account_sold
on_sub_account_sold-Moves false tla n b price deposit s l le =
    let t = Sale.on_sub_account_sold false tla n b price deposit s in
    record {
      owed = ground arith;
      ledger =
          λ fits. refunded-IsLedger b deposit s t l (omega arith) (ground arith) (ground arith);
    }
on_sub_account_sold-Moves true tla n b price deposit s l le =
    let t = Sale.on_sub_account_sold true tla n b price deposit s in
    elim (Option-cases (get (sub_account_key tla n) s.sub_accounts)) [
      | inl gone ↦ record {
        owed = ground arith;
        ledger =
            λ fits. refunded-IsLedger b deposit s t l (omega arith) (ground arith) (ground arith);
      }
      | inr (sub, found) ↦
          let proceeds = price - Sale.commission_of price s in
          record {
            owed = ground arith;
            ledger = λ fits.
                two_refunds-IsLedger sub.owner b proceeds (deposit - price) s t l (omega arith)
                  (ground arith) (ground arith);
          }
    ]

abort_sale-Moves :
    (k : Text) (b : PendingBuy) (token : Text) (r : BlockReason) (s : Registry)
    → IsLedger s
    → Moves b.deposit 0 s (Sale.abort_sale k b token r s) none
unfolding Sale.abort_sale
abort_sale-Moves k b token r s l =
    let t = Sale.abort_sale k b token r s in
    record {
      owed = ground arith;
      ledger = λ fits.
          refunded-IsLedger b.buyer b.deposit s t l (omega arith) (ground arith) (ground arith);
    }

after_sale_check-Moves :
    (env : Env) (k : Text) (b : PendingBuy) (s t : Registry) (p : Option Promise)
    (block : Option (Text × BlockReason))
    → IsLedger s
    → Sale.after_sale_check env k b s block ≡ (t, p)
    → Moves b.deposit 0 s t p
unfolding Marketplace.settle_transfer
after_sale_check-Moves env k b s t p none l h =
    ground (arith, abort_sale-Moves k b [] BlockReason.invalid_sub_account_id s l)
after_sale_check-Moves env k b s t p (some (token, r)) l h =
    ground (arith, abort_sale-Moves k b token r s l)

on_buy_balances_checked-Moves :
    (env : Env) (r : List PromiseResult) (b : PendingBuy) (l : List AccountId) (s t : Registry)
    (p : Option Promise)
    → IsLedger s
    → Sale.on_buy_balances_checked env r b l s ≡ (t, p)
    → Moves b.deposit 0 s t p
unfolding Sale.on_buy_balances_checked
on_buy_balances_checked-Moves env r b ls s t p l h =
    after_sale_check-Moves env (sub_account_key b.tla_id b.name) b s t p
      (Sale.sale_block_reason env ls r) l h

-- No callback of a funded promise makes the registry owe more than it did with that promise, less
-- what went out for good; and the refund queue still adds up.
pub resolve-Moves :
    (env : Env) (e : Ending) (cb : Callback) (sent : ℕ) (s t : Registry) (p : Option Promise)
    → IsLedger s
    → held cb < u128_max
    → IsFunded s.fee_config sent cb
    → resolve env e cb s ≡ ok (t, p)
    → Moves (held cb) (spent e.success sent) s t p
unfolding resolve
resolve-Moves env e (Callback.on_claim_refund_settled c n) sent s t p l lt f h =
    ground (arith, on_claim_refund_settled-Moves e.success c n s l)
resolve-Moves env e (Callback.on_sub_account_created a n c r d) sent s t p l lt f h =
    on_sub_account_created-Moves e.success a n c r d sent s t p l lt f h
resolve-Moves env e (Callback.on_buy_balances_checked b r) sent s t p l lt f h =
    ground (arith, on_buy_balances_checked-Moves env e.results b r s t p l)
resolve-Moves env e (Callback.on_sub_account_sold a n b pr d) sent s t p l lt f h =
    ground (arith, on_sub_account_sold-Moves e.success a n b pr d s l f.1)
resolve-Moves env e _ sent s t p l lt f h = ground arith
