-- ===== src/System.antt =====
-- The registry on the network: every public method that changes its state as one operation, and
-- every callback. A call runs to its end and may leave a promise; the callback of a promise runs
-- in a later call, and any calls may come between.
pub mod Ledger
pub mod Network
pub mod Funding
pub mod Solvency
pub mod Gates
pub mod Configuration
pub mod Gas
pub mod Protection
pub mod Locks
pub mod Slots
pub mod World
pub mod Census
use hos_tla.Base.{
  ◌==◌, ℕ, ◌≤◌, u32_max, ◌+◌, ◌-◌, Bool, true, false, Option, none, some, List, [], ◌∷◌, ◌++◌, ◌≡◌,
  Text, if◌then◌else◌, Result, ok, err, ◌>>=◌,
}
use hos_tla.Types.{AccountId, PublicKey, TlaType, PremiumCategory, FeeConfig}
use hos_tla.Registry.{
  ContractError, Call, Callback, PendingBuy, Promise, PromiseResult, Env, Registry, Outcome,
}
use hos_tla.Core
use hos_tla.Admin
use hos_tla.Business
use hos_tla.Mother
use hos_tla.Rental
use hos_tla.Reclaim
use hos_tla.Marketplace
use hos_tla.Marketplace.Sale
use hos_tla.Resale

-- The public methods, by module.
pub data Op : Type 0 where
  pause unpause claim_refund migrate : Op
  register_tla : AccountId → TlaType → PremiumCategory → Option AccountId → Op
  suspend_tla unsuspend_tla activate_open_tla : AccountId → Op
  add_admin remove_admin : AccountId → Op
  update_fee_config : FeeConfig → Op
  withdraw : ℕ → AccountId → Op
  add_ft_allowlist remove_ft_allowlist add_nft_allowlist remove_nft_allowlist : AccountId → Op
  schedule_retraction cancel_retraction : AccountId → Text → Op
  set_business_sub_cap : AccountId → Option ℕ → Op
  set_mother admin_clear_mother : AccountId → Op
  activate_tla renew_tla : AccountId → Op
  rent_sub_account : AccountId → Text → PublicKey → AccountId → Op
  set_main_wallet : AccountId → Text → AccountId → Op
  renew_sub_account : AccountId → Text → Op
  reclaim_sweep_ft : AccountId → Text → AccountId → Op
  reclaim_finalize export_sub_account : AccountId → Text → Op
  list_sub_account : AccountId → Text → ℕ → Op
  unlist_sub_account revoke_offer : AccountId → Text → Op
  accept_offer : AccountId → Text → AccountId → ℕ → Op
  buy_sub_account : AccountId → Text → PublicKey → Op
  resale_unlock : AccountId → PublicKey → Op
  resale_abort : AccountId → Op

-- The arguments of type `u32` are numbers of 32 bits.
abbrev pub IsTyped : Op → Type 0
IsTyped (Op.set_business_sub_cap _ (some cap)) = cap ≤ u32_max
IsTyped (Op.update_fee_config config) = config.business_max_subs ≤ u32_max
IsTyped _ = Unit

-- The state after a call or a callback, and the promise that it leaves.
abbrev pub Answer : Type 0
Answer = Result ContractError (Registry × Option Promise)

abbrev pub plain : Result ContractError Registry → Answer
plain (ok s) = ok (s, none)
plain (err e) = err e

abbrev pub with_promise : Result ContractError Outcome → Answer
with_promise (ok o) = ok (o.state, some o.promise)
with_promise (err e) = err e

abbrev pub promise_only : Registry → Result ContractError Promise → Answer
promise_only s (ok p) = ok (s, some p)
promise_only s (err e) = err e

unfoldable pub call : Env → Op → Registry → Answer
unfolding Core.pause Core.unpause Core.migrate Core.claim_refund Admin.register_tla
    Admin.suspend_tla Admin.unsuspend_tla Admin.activate_open_tla Admin.add_admin Admin.remove_admin
    Admin.update_fee_config Admin.withdraw Admin.add_ft_allowlist Admin.remove_ft_allowlist
    Admin.add_nft_allowlist Admin.remove_nft_allowlist Business.schedule_retraction
    Business.cancel_retraction Business.set_business_sub_cap Mother.set_mother
    Mother.admin_clear_mother Rental.activate_tla Rental.renew_tla Rental.renew_sub_account
    Rental.set_main_wallet Reclaim.reclaim_sweep_ft Reclaim.reclaim_finalize
    Reclaim.export_sub_account Marketplace.list_sub_account Marketplace.unlist_sub_account
    Marketplace.accept_offer Marketplace.revoke_offer Resale.resale_unlock Resale.resale_abort
    Rental.rent_sub_account Mother.ensure_mother_default Business.business_count_check_and_bump
    Marketplace.buy_sub_account
call env Op.pause s = plain (Core.pause env s)
call env Op.unpause s = plain (Core.unpause env s)
call env Op.claim_refund s = with_promise (Core.claim_refund env s)
call env Op.migrate s = plain (Core.migrate env s)
call env (Op.register_tla t k c l) s = plain (Admin.register_tla env t k c l s)
call env (Op.suspend_tla t) s = plain (Admin.suspend_tla env t s)
call env (Op.unsuspend_tla t) s = plain (Admin.unsuspend_tla env t s)
call env (Op.activate_open_tla t) s = plain (Admin.activate_open_tla env t s)
call env (Op.add_admin a) s = plain (Admin.add_admin env a s)
call env (Op.remove_admin a) s = plain (Admin.remove_admin env a s)
call env (Op.update_fee_config c) s = plain (Admin.update_fee_config env c s)
call env (Op.withdraw n a) s = plain (Admin.withdraw env n a s)
call env (Op.add_ft_allowlist a) s = plain (Admin.add_ft_allowlist env a s)
call env (Op.remove_ft_allowlist a) s = plain (Admin.remove_ft_allowlist env a s)
call env (Op.add_nft_allowlist a) s = plain (Admin.add_nft_allowlist env a s)
call env (Op.remove_nft_allowlist a) s = plain (Admin.remove_nft_allowlist env a s)
call env (Op.schedule_retraction t n) s = plain (Business.schedule_retraction env t n s)
call env (Op.cancel_retraction t n) s = plain (Business.cancel_retraction env t n s)
call env (Op.set_business_sub_cap t c) s = plain (Business.set_business_sub_cap env t c s)
call env (Op.set_mother a) s = plain (Mother.set_mother env a s)
call env (Op.admin_clear_mother a) s = plain (Mother.admin_clear_mother env a s)
call env (Op.activate_tla t) s = plain (Rental.activate_tla env t s)
call env (Op.renew_tla t) s = plain (Rental.renew_tla env t s)
call env (Op.rent_sub_account t n k w) s = with_promise (Rental.rent_sub_account env t n k w s)
call env (Op.set_main_wallet t n w) s = plain (Rental.set_main_wallet env t n w s)
call env (Op.renew_sub_account t n) s = plain (Rental.renew_sub_account env t n s)
call env (Op.reclaim_sweep_ft t n f) s = promise_only s (Reclaim.reclaim_sweep_ft env t n f s)
call env (Op.reclaim_finalize t n) s = promise_only s (Reclaim.reclaim_finalize env t n s)
call env (Op.export_sub_account t n) s = promise_only s (Reclaim.export_sub_account env t n s)
call env (Op.list_sub_account t n p) s = plain (Marketplace.list_sub_account env t n p s)
call env (Op.unlist_sub_account t n) s = plain (Marketplace.unlist_sub_account env t n s)
call env (Op.revoke_offer t n) s = plain (Marketplace.revoke_offer env t n s)
call env (Op.accept_offer t n b p) s = plain (Marketplace.accept_offer env t n b p s)
call env (Op.buy_sub_account t n k) s = with_promise (Marketplace.buy_sub_account env t n k s)
call env (Op.resale_unlock a k) s = with_promise (Resale.resale_unlock env a k s)
call env (Op.resale_abort a) s = with_promise (Resale.resale_abort env a s)

-- How the calls of a promise ended: of one call, whether it succeeded; of balance queries, the
-- result of each.
pub record Ending : Type 0 where
  pub success : Bool
  pub results : List PromiseResult

unfoldable pub resolve : Env → Ending → Callback → Registry → Answer
unfolding Core.on_claim_refund_settled Rental.on_sub_account_created Reclaim.on_balances_checked
    Reclaim.on_reclaim_finalized Reclaim.on_export_settled Sale.on_buy_balances_checked
    Sale.on_sub_account_sold
resolve env e (Callback.on_claim_refund_settled c n) s =
    ok (Core.on_claim_refund_settled e.success c n s, none)
resolve env e (Callback.on_sub_account_created t n p r a) s =
    plain (Rental.on_sub_account_created e.success t n p r a s)
resolve env e (Callback.on_balances_checked t n d l) s =
    Reclaim.on_balances_checked env e.results t n d l s
resolve env e (Callback.on_reclaim_finalized t n d) s =
    ok (Reclaim.on_reclaim_finalized e.success t n d s, none)
resolve env e (Callback.on_export_settled t n) s =
    ok (Reclaim.on_export_settled e.success t n s, none)
resolve env e (Callback.on_buy_balances_checked b l) s =
    ok (Sale.on_buy_balances_checked env e.results b l s)
resolve env e (Callback.on_sub_account_sold t n b p d) s =
    ok (Sale.on_sub_account_sold e.success t n b p d s, none)
