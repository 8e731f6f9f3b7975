-- ===== src/Reclaim.antt =====
-- contracts/tla-registry/src/reclaim.rs: sweeping and deleting an account whose term is over, and
-- releasing one to its owner.
pub mod Admission
pub mod Emptiness
pub mod Removal
pub mod Readings
use hos_tla.Base.{
  ℕ, ◌-◌, Bool, not, Option, none, some, List, [], ◌∷◌, Text, ltb, if◌then◌else◌, Result, ok, err,
  err_if, ok_or, ◌>>=◌, ◌>>◌,
}
use hos_tla.Base.Maps.{get, contains_key, remove}
use hos_tla.Base.Sets.{contains}
use hos_tla.Types.{AccountId, is_reclaimable}
use hos_tla.Types.Lifecycle.{effective_sub_lifecycle}
use hos_tla.Types.Names.{sub_account_key}
use hos_tla.Registry.{
  ContractError, Event, BlockReason, Call, Callback, Promise, PromiseResult, one_call, then_call,
  Env, Registry, emit, assert_admin, assert_not_paused,
}
use hos_tla.Business.{decrement_if_business}
use hos_tla.Mother.{is_mother}

abbrev pub gas_for_locker_sweep : ℕ
gas_for_locker_sweep = 60

abbrev pub gas_for_locker_delete : ℕ
gas_for_locker_delete = 30

abbrev pub gas_for_finalize_cb : ℕ
gas_for_finalize_cb = 10

abbrev pub gas_for_balance_query : ℕ
gas_for_balance_query = 5

abbrev pub gas_for_balances_cb_total : ℕ
gas_for_balances_cb_total = 55

abbrev pub gas_for_locker_export : ℕ
gas_for_locker_export = 20

abbrev pub gas_for_export_cb : ℕ
gas_for_export_cb = 10

-- What `reclaim_sweep_ft` and `reclaim_finalize` check alike: the account can be reclaimed. The
-- answer is the destination, the account's main wallet.
unfoldable pub reclaim_destination :
    Env → AccountId → Text → Registry → Result ContractError AccountId
unfolding is_mother
reclaim_destination env tla_id name s = do
  let key = sub_account_key tla_id name
  err_if (not (env.is_account_id key)) ContractError.invalid_sub_account_id
  err_if (is_mother key s) ContractError.sub_account_is_mother
  sub ← ok_or (get key s.sub_accounts) ContractError.sub_account_not_found
  tla ← ok_or (get tla_id s.tlas) ContractError.tla_not_found
  err_if
      (not (
        is_reclaimable
          (effective_sub_lifecycle env.block_timestamp sub tla s.fee_config.retraction_notice_ns)))
      ContractError.sub_account_not_reclaimable
  ok sub.main_wallet

unfoldable pub reclaim_sweep_ft :
    Env → AccountId → Text → AccountId → Registry → Result ContractError Promise
unfolding assert_not_paused reclaim_destination
reclaim_sweep_ft env tla_id name ft s = do
  assert_not_paused s
  err_if (not (contains ft s.ft_allowlist)) ContractError.token_not_in_allowlist
  destination ← reclaim_destination env tla_id name s
  ok (one_call (Call.sweep_ft (sub_account_key tla_id name) ft destination) gas_for_locker_sweep)

-- `finalize_delete` at the locker, and then the callback.
abbrev pub delete_promise : AccountId → Text → AccountId → Promise
delete_promise tla_id name destination =
    then_call
      (one_call (Call.finalize_delete (sub_account_key tla_id name) destination)
        gas_for_locker_delete)
      (Callback.on_reclaim_finalized tla_id name destination) gas_for_finalize_cb

-- One balance query for each allowlisted token, joined by `and`.
abbrev pub balance_queries : AccountId → List AccountId → List (Call × ℕ)
balance_queries account [] = []
balance_queries account (ft ∷ rest) =
    (Call.ft_balance_of ft account, gas_for_balance_query) ∷ balance_queries account rest

abbrev pub finalize_promise : AccountId → Text → AccountId → List AccountId → Promise
finalize_promise tla_id name destination [] = delete_promise tla_id name destination
finalize_promise tla_id name destination (ft ∷ rest) =
    let allowlist = ft ∷ rest in
    record {
      calls = balance_queries (sub_account_key tla_id name) allowlist;
      callback = some (
        Callback.on_balances_checked tla_id name destination allowlist,
        gas_for_balances_cb_total,
      );
    }

unfoldable pub reclaim_finalize : Env → AccountId → Text → Registry → Result ContractError Promise
unfolding assert_not_paused reclaim_destination
reclaim_finalize env tla_id name s = do
  assert_not_paused s
  destination ← reclaim_destination env tla_id name s
  ok (finalize_promise tla_id name destination s.ft_allowlist)

-- What the result for one token means: `none` is a balance of 0. A response that is no number
-- panics.
unfoldable pub balance_verdict : Env → PromiseResult → Result ContractError (Option BlockReason)
balance_verdict env (PromiseResult.returned bytes) = do
  balance ← ok_or (env.from_slice bytes) ContractError.invalid_ft_balance_response
  ok (if ltb 0 balance then some (BlockReason.balance balance) else none)
balance_verdict env PromiseResult.failed = ok (some BlockReason.balance_query_failed)
balance_verdict env PromiseResult.unverifiable = ok (some BlockReason.balance_query_unverifiable)

-- The loop over the results: the first token that blocks, with its reason.
unfoldable pub first_block :
    Env
    → List PromiseResult
    → List AccountId
    → Result ContractError (Option (AccountId × BlockReason))
unfolding balance_verdict
first_block env [] allowlist = ok none
first_block env (r ∷ results) [] = err ContractError.allowlist_length_mismatch
first_block env (r ∷ results) (token ∷ allowlist) =
    let rest = first_block env results allowlist in
    balance_verdict env r >>= λ v. elim v [ none ↦ rest | some reason ↦ ok (some (token, reason)) ]

-- The state and, unless a balance blocks, the promise that deletes the account.
abbrev pub after_balances :
    AccountId
    → Text
    → AccountId
    → Registry
    → Option (AccountId × BlockReason)
    → Registry × Option Promise
after_balances tla_id name destination s none = (s, some (delete_promise tla_id name destination))
after_balances tla_id name destination s (some (token, reason)) =
    (emit (Event.reclaim_finalize_blocked (sub_account_key tla_id name) token reason) s, none)

abbrev parse_or_panic : Bool → Option (AccountId × BlockReason) → Result ContractError (Unit {0})
parse_or_panic valid none = err_if (not valid) ContractError.invalid_sub_account_id
parse_or_panic valid (some _) = ok tt

unfoldable pub on_balances_checked :
    Env
    → List PromiseResult
    → AccountId
    → Text
    → AccountId
    → List AccountId
    → Registry
    → Result ContractError (Registry × Option Promise)
on_balances_checked env results tla_id name destination allowlist s = do
  block ← first_block env results allowlist
  parse_or_panic (env.is_account_id (sub_account_key tla_id name)) block
  ok (after_balances tla_id name destination s block)

unfoldable pub on_reclaim_finalized : Bool → AccountId → Text → AccountId → Registry → Registry
unfolding decrement_if_business
on_reclaim_finalized success tla_id name destination s =
    let key = sub_account_key tla_id name in
    let s1 = record s {
      sub_accounts = remove key s.sub_accounts;
      listings = remove key s.listings;
      accepted_offers = remove key s.accepted_offers;
      sub_account_count = s.sub_account_count - 1;
    } in
    if success
    then emit (Event.sub_account_reclaimed key tla_id destination) (decrement_if_business tla_id s1)
    else s

unfoldable pub export_sub_account : Env → AccountId → Text → Registry → Result ContractError Promise
unfolding assert_admin contains_key is_mother
export_sub_account env tla_id name s = do
  assert_admin env s
  let key = sub_account_key tla_id name
  err_if (not (contains_key key s.sub_accounts)) ContractError.sub_account_not_found
  err_if (not (env.is_account_id key)) ContractError.invalid_sub_account_id
  err_if (is_mother key s) ContractError.sub_account_is_mother
  ok (
      then_call (one_call (Call.export key) gas_for_locker_export)
        (Callback.on_export_settled tla_id name) gas_for_export_cb)

unfoldable pub on_export_settled : Bool → AccountId → Text → Registry → Registry
unfolding decrement_if_business contains_key
on_export_settled success tla_id name s =
    let key = sub_account_key tla_id name in
    let s1 = record s {
      sub_accounts = remove key s.sub_accounts;
      listings = remove key s.listings;
      accepted_offers = remove key s.accepted_offers;
      sub_account_count = s.sub_account_count - 1;
    } in
    if success
    then if contains_key key s.sub_accounts
      then emit (Event.sub_account_exported key tla_id) (decrement_if_business tla_id s1)
      else s
    else s
