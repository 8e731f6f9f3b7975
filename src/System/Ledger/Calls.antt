-- ===== src/System/Ledger/Calls.antt =====
-- Every method owes after it no more than before it and the attached deposit.
use hos_tla.Base.{
  ℕ, ◌-◌, ◌≡◌, arith, ok, Option, inl, inr, Option-cases, add_u128, Text, as_u8, length,
}
use hos_tla.Base.Maps.{get}
use hos_tla.Base.Maps.Sums.{remove-IsMap, sum_by-remove, weight-le-sum_by}
use hos_tla.Types.{AccountId, PublicKey}
use hos_tla.Fees.{base_rent, calculate_rent}
use hos_tla.Registry.{Registry, Env, Promise}
use hos_tla.Core
use hos_tla.Admin
use hos_tla.Business
use hos_tla.Mother
use hos_tla.Rental
use hos_tla.Marketplace
use hos_tla.System.{Op, call, plain, with_promise}
use hos_tla.System.Ledger.{amount, IsLedger, Moves, refunded-IsLedger, excess-IsLedger}

claim_refund-Moves :
    (env : Env) (s t : Registry) (p : Option Promise)
    → IsLedger s
    → with_promise (Core.claim_refund env s) ≡ ok (t, p)
    → Moves env.attached_deposit 0 s t p
unfolding Core.claim_refund
claim_refund-Moves env s t p l h =
    let who = env.predecessor in
    record {
      owed = ground (arith, l.adds_up, weight-le-sum_by amount who s.pending_refunds);
      ledger = λ fits. record {
        is_map = ground (arith, remove-IsMap who s.pending_refunds l.is_map);
        adds_up = ground (arith, l.adds_up, sum_by-remove amount who s.pending_refunds l.is_map);
      };
    }

withdraw-Moves :
    (env : Env) (n : ℕ) (a : AccountId) (s t : Registry) (p : Option Promise)
    → IsLedger s
    → plain (Admin.withdraw env n a s) ≡ ok (t, p)
    → Moves env.attached_deposit 0 s t p
unfolding Admin.withdraw
withdraw-Moves env n a s t p l h = record {
  owed = ground arith;
  ledger = λ fits. refunded-IsLedger a n s t l (ground arith) (ground arith) (ground arith);
}

activate_tla-Moves :
    (env : Env) (a : AccountId) (s t : Registry) (p : Option Promise)
    → IsLedger s
    → plain (Rental.activate_tla env a s) ≡ ok (t, p)
    → Moves env.attached_deposit 0 s t p
unfolding Rental.activate_tla
activate_tla-Moves env a s t p l h =
    let required =
      add_u128 s.fee_config.tla_allocation_fee (base_rent (as_u8 (length a)) s.fee_config) in
    record {
      owed = ground arith;
      ledger = λ fits.
          excess-IsLedger env.predecessor (env.attached_deposit - required) s t l (omega arith)
            (ground arith) (ground arith);
    }

renew_tla-Moves :
    (env : Env) (a : AccountId) (s t : Registry) (p : Option Promise)
    → IsLedger s
    → plain (Rental.renew_tla env a s) ≡ ok (t, p)
    → Moves env.attached_deposit 0 s t p
unfolding Rental.renew_tla
renew_tla-Moves env a s t p l h =
    let rent = base_rent (as_u8 (length a)) s.fee_config in
    record {
      owed = ground arith;
      ledger = λ fits.
          excess-IsLedger env.predecessor (env.attached_deposit - rent) s t l (omega arith)
            (ground arith) (ground arith);
    }

renew_sub_account-Moves :
    (env : Env) (tla : AccountId) (n : Text) (s t : Registry) (p : Option Promise)
    → IsLedger s
    → plain (Rental.renew_sub_account env tla n s) ≡ ok (t, p)
    → Moves env.attached_deposit 0 s t p
unfolding Rental.renew_sub_account
renew_sub_account-Moves env tla n s t p l h = elim (Option-cases (get tla s.tlas)) [
  | inl absent ↦ ground arith
  | inr (e, found) ↦
      let rent = calculate_rent e tla n s.fee_config in
      record {
        owed = ground arith;
        ledger = λ fits.
            excess-IsLedger env.predecessor (env.attached_deposit - rent) s t l (omega arith)
              (ground arith) (ground arith);
      }
]

buy_sub_account-Moves :
    (env : Env) (tla : AccountId) (n : Text) (k : PublicKey) (s t : Registry) (p : Option Promise)
    → IsLedger s
    → with_promise (Marketplace.buy_sub_account env tla n k s) ≡ ok (t, p)
    → Moves env.attached_deposit 0 s t p
unfolding Marketplace.buy_sub_account
buy_sub_account-Moves env tla n k s t p l h = ground arith

rent_sub_account-Moves :
    (env : Env) (tla : AccountId) (n : Text) (k : PublicKey) (w : AccountId) (s t : Registry)
    (p : Option Promise)
    → IsLedger s
    → with_promise (Rental.rent_sub_account env tla n k w s) ≡ ok (t, p)
    → Moves env.attached_deposit 0 s t p
unfolding Rental.rent_sub_account Mother.ensure_mother_default
    Business.business_count_check_and_bump
rent_sub_account-Moves env tla n k w s t p l h = ground arith

-- No method makes the registry owe more than it did and what was attached, the promise that it
-- leaves included; and the refund queue still adds up.
pub call-Moves :
    (env : Env) (op : Op) (s t : Registry) (p : Option Promise)
    → IsLedger s
    → call env op s ≡ ok (t, p)
    → Moves env.attached_deposit 0 s t p
unfolding call
call-Moves env Op.claim_refund s t p l h = claim_refund-Moves env s t p l h
call-Moves env (Op.withdraw n a) s t p l h = withdraw-Moves env n a s t p l h
call-Moves env (Op.activate_tla a) s t p l h = activate_tla-Moves env a s t p l h
call-Moves env (Op.renew_tla a) s t p l h = renew_tla-Moves env a s t p l h
call-Moves env (Op.rent_sub_account tla n k w) s t p l h =
    rent_sub_account-Moves env tla n k w s t p l h
call-Moves env (Op.renew_sub_account tla n) s t p l h = renew_sub_account-Moves env tla n s t p l h
call-Moves env (Op.buy_sub_account tla n k) s t p l h = buy_sub_account-Moves env tla n k s t p l h
call-Moves env _ s t p l h = ground arith
