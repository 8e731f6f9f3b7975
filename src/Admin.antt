-- ===== src/Admin.antt =====
-- contracts/tla-registry/src/admin.rs: registration, suspension, admins, fees, withdrawals and
-- the token allowlists.
pub mod Dormant
use hos_tla.Base.{
  ℕ, ◌-◌, not, ◌&&◌, Option, length, nat_eq, ltb, leb, if◌then◌else◌, is_some, add_u64, add_u128,
  Result, ok, err_if, ok_or, ◌>>=◌, ◌>>◌,
}
use hos_tla.Base.Maps.{get, contains_key, insert}
use hos_tla.Base.Sets.{contains, add, delete}
use hos_tla.Types.{
  AccountId, TlaType, TlaStatus, PremiumCategory, TlaEntry, FeeConfig, is_business, is_registered,
  is_suspended, one_year_ns,
}
use hos_tla.Registry.{
  ContractError, Event, Env, Registry, emit, assert_admin, add_pending_refund, available_balance,
}

abbrev pub max_allowlist_size : ℕ
max_allowlist_size = 40

unfoldable pub register_tla :
    Env
    → AccountId
    → TlaType
    → PremiumCategory
    → Option AccountId
    → Registry
    → Result ContractError Registry
unfolding assert_admin contains_key
register_tla env tla_id tla_type premium_category licensee s = do
  assert_admin env s
  err_if (contains_key tla_id s.tlas) ContractError.tla_already_registered
  err_if (is_business tla_type && not (is_some licensee))
      ContractError.business_tla_requires_licensee
  let entry : TlaEntry = record {
    tla_type = tla_type;
    status = TlaStatus.registered;
    licensee = licensee;
    premium_category = premium_category;
    activated_at = 0;
    expires_at = 0;
  }
  ok (
      emit (Event.tla_registered tla_id tla_type premium_category licensee)
        (record s { tlas = insert tla_id entry s.tlas }))

unfoldable pub suspend_tla : Env → AccountId → Registry → Result ContractError Registry
unfolding assert_admin
suspend_tla env tla_id s = do
  assert_admin env s
  entry ← ok_or (get tla_id s.tlas) ContractError.tla_not_found
  ok (
      emit (Event.tla_suspended tla_id env.predecessor)
        (record s { tlas = insert tla_id (record entry { status = TlaStatus.suspended }) s.tlas }))

unfoldable pub unsuspend_tla : Env → AccountId → Registry → Result ContractError Registry
unfolding assert_admin
unsuspend_tla env tla_id s = do
  assert_admin env s
  entry ← ok_or (get tla_id s.tlas) ContractError.tla_not_found
  err_if (not (is_suspended entry.status)) ContractError.tla_not_suspended
  err_if (is_business entry.tla_type && not (is_some entry.licensee))
      ContractError.business_tla_missing_licensee
  ok (
      emit (Event.tla_unsuspended tla_id env.predecessor)
        (record s { tlas = insert tla_id (record entry { status = TlaStatus.active }) s.tlas }))

unfoldable pub add_admin : Env → AccountId → Registry → Result ContractError Registry
unfolding assert_admin
add_admin env account_id s = do
  assert_admin env s
  if contains account_id s.admins
      then ok s
      else ok (
          emit (Event.admin_added account_id env.predecessor)
            (record s { admins = add account_id s.admins }))

unfoldable pub remove_admin : Env → AccountId → Registry → Result ContractError Registry
unfolding assert_admin
remove_admin env account_id s = do
  assert_admin env s
  err_if (leb (length s.admins) 1) ContractError.cannot_remove_last_admin
  ok (
      emit (Event.admin_removed account_id env.predecessor)
        (record s { admins = delete account_id s.admins }))

unfoldable pub update_fee_config : Env → FeeConfig → Registry → Result ContractError Registry
unfolding assert_admin
update_fee_config env config s = do
  assert_admin env s
  err_if
      (nat_eq config.rent_tier_5 0
        && nat_eq config.rent_tier_8 0
        && nat_eq config.rent_tier_10 0
        && nat_eq config.rent_tier_12plus 0)
      ContractError.all_rent_tiers_zero
  err_if (nat_eq config.account_creation_deposit 0) ContractError.creation_deposit_zero
  err_if (ltb 10_000 config.resale_commission_bps) ContractError.invalid_commission_rate
  ok (emit (Event.fee_config_updated env.predecessor) (record s { fee_config = config }))

unfoldable pub withdraw : Env → ℕ → AccountId → Registry → Result ContractError Registry
unfolding assert_admin add_pending_refund available_balance
withdraw env amount recipient s = do
  assert_admin env s
  err_if (nat_eq amount 0) ContractError.withdrawal_amount_zero
  err_if (ltb s.total_revenue amount) ContractError.insufficient_revenue
  err_if (ltb (available_balance env) (add_u128 s.total_pending_refunds amount))
      ContractError.insufficient_contract_balance
  ok (
      emit (Event.withdrawal_queued amount recipient) (
        add_pending_refund recipient amount
          (record s { total_revenue = s.total_revenue - amount })))

unfoldable pub add_ft_allowlist : Env → AccountId → Registry → Result ContractError Registry
unfolding assert_admin
add_ft_allowlist env token s = do
  assert_admin env s
  if contains token s.ft_allowlist then ok s else do
    err_if (leb max_allowlist_size (length s.ft_allowlist)) ContractError.allowlist_full
    ok (
        emit (Event.ft_allowlist_added token env.predecessor)
          (record s { ft_allowlist = add token s.ft_allowlist }))

unfoldable pub remove_ft_allowlist : Env → AccountId → Registry → Result ContractError Registry
unfolding assert_admin
remove_ft_allowlist env token s = do
  assert_admin env s
  if contains token s.ft_allowlist
      then ok (
          emit (Event.ft_allowlist_removed token env.predecessor)
            (record s { ft_allowlist = delete token s.ft_allowlist }))
      else ok s

unfoldable pub add_nft_allowlist : Env → AccountId → Registry → Result ContractError Registry
unfolding assert_admin
add_nft_allowlist env token s = do
  assert_admin env s
  if contains token s.nft_allowlist then ok s else do
    err_if (leb max_allowlist_size (length s.nft_allowlist)) ContractError.allowlist_full
    ok (
        emit (Event.nft_allowlist_added token env.predecessor)
          (record s { nft_allowlist = add token s.nft_allowlist }))

unfoldable pub remove_nft_allowlist : Env → AccountId → Registry → Result ContractError Registry
unfolding assert_admin
remove_nft_allowlist env token s = do
  assert_admin env s
  if contains token s.nft_allowlist
      then ok (
          emit (Event.nft_allowlist_removed token env.predecessor)
            (record s { nft_allowlist = delete token s.nft_allowlist }))
      else ok s

unfoldable pub activate_open_tla : Env → AccountId → Registry → Result ContractError Registry
unfolding assert_admin
activate_open_tla env tla_id s = do
  assert_admin env s
  let now = env.block_timestamp
  entry ← ok_or (get tla_id s.tlas) ContractError.tla_not_found
  err_if (not (is_registered entry.status)) ContractError.tla_not_in_registered_state
  err_if (is_business entry.tla_type) ContractError.wrong_activation_endpoint
  let new_expires_at = add_u64 now one_year_ns
  let entry' = record entry {
    status = TlaStatus.active;
    activated_at = now;
    expires_at = new_expires_at;
  }
  ok (
      emit (Event.tla_activated tla_id new_expires_at 0)
        (record s { tlas = insert tla_id entry' s.tlas }))
