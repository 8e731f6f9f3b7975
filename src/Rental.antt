-- ===== src/Rental.antt =====
-- contracts/tla-registry/src/rental.rs: activation and renewal of TLAs, rental and renewal of
-- sub-accounts; and callbacks.rs, the end of a rental.
pub mod Admission
pub mod DepositRace
pub mod Failure
pub mod Renewal
use hos_tla.Base.{
  ◌==◌, ℕ, ◌-◌, max, Bool, true, false, not, Option, none, some, Text, length, ltb, leb,
  if◌then◌else◌, is_some, as_u8, add_u64, add_u128, Result, ok, err, err_if, ok_or, ◌>>=◌, ◌>>◌,
}
use hos_tla.Base.Maps.{get, contains_key, insert, remove}
use hos_tla.Types.{
  AccountId, PublicKey, TlaStatus, SubAccountEntry, is_business, is_registered, is_active,
  is_reclaimable, one_year_ns, grace_period_ns,
}
use hos_tla.Types.Lifecycle.{tla_lifecycle, is_accepting_rentals}
use hos_tla.Types.Names.{NameInvalidReason, validate_name, sub_account_key}
use hos_tla.Fees.{base_rent, calculate_rent}
use hos_tla.Registry.{
  ContractError, Event, BlockReason, Call, Callback, one_call, then_call, Env, Registry, Outcome,
  emit, assert_admin, assert_not_paused, assert_one_yocto, add_pending_refund, refund_excess,
}
use hos_tla.Business.{business_count_check_and_bump, decrement_if_business}
use hos_tla.Mother.{ensure_mother_default}

-- `entry.licensee.as_ref().ok_or(…)?` and the comparison with the caller.
abbrev pub assert_licensee : AccountId → Option AccountId → Result ContractError (Unit {0})
assert_licensee caller none = err ContractError.business_tla_missing_licensee
assert_licensee caller (some licensee) =
    err_if (not (caller == licensee)) ContractError.only_licensee

unfoldable pub activate_tla : Env → AccountId → Registry → Result ContractError Registry
unfolding assert_not_paused refund_excess
activate_tla env tla_id s = do
  assert_not_paused s
  let caller = env.predecessor
  let rent = base_rent (as_u8 (length tla_id)) s.fee_config
  let required = add_u128 s.fee_config.tla_allocation_fee rent
  let attached = env.attached_deposit
  err_if (ltb attached required) ContractError.insufficient_payment
  entry ← ok_or (get tla_id s.tlas) ContractError.tla_not_found
  err_if (not (is_registered entry.status)) ContractError.tla_not_in_registered_state
  err_if (not (is_business entry.tla_type)) ContractError.wrong_activation_endpoint
  assert_licensee caller entry.licensee
  let now = env.block_timestamp
  let new_expires_at = add_u64 now one_year_ns
  let entry' = record entry {
    status = TlaStatus.active;
    activated_at = now;
    expires_at = new_expires_at;
  }
  let s1 = record s {
    tlas = insert tla_id entry' s.tlas;
    total_revenue = add_u128 s.total_revenue required;
  }
  ok (
      emit (Event.tla_activated tla_id new_expires_at required)
        (refund_excess caller (attached - required) s1))

-- `validate_name(&name)?`
abbrev pub check_name : Result NameInvalidReason (Unit {0}) → Result ContractError (Unit {0})
check_name (ok u) = ok u
check_name (err reason) = err (ContractError.invalid_name reason)

abbrev gas_for_create : ℕ
gas_for_create = 30

abbrev gas_for_callback : ℕ
gas_for_callback = 15

unfoldable pub rent_sub_account :
    Env → AccountId → Text → PublicKey → AccountId → Registry → Result ContractError Outcome
unfolding assert_not_paused contains_key
rent_sub_account env tla_id name owner_key main_wallet s = do
  assert_not_paused s
  check_name (validate_name name)
  let key = sub_account_key tla_id name
  err_if (contains_key key s.sub_accounts) ContractError.sub_account_name_taken
  err_if (main_wallet == key) ContractError.main_wallet_equals_sub_account
  let caller = env.predecessor
  entry ← ok_or (get tla_id s.tlas) ContractError.tla_not_found
  err_if (not (is_accepting_rentals env.block_timestamp entry))
      ContractError.tla_not_accepting_rentals
  if is_business entry.tla_type then assert_licensee caller entry.licensee else ok tt
  let rent = calculate_rent entry tla_id name s.fee_config
  let creation_deposit = s.fee_config.account_creation_deposit
  let attached = env.attached_deposit
  err_if (ltb attached (add_u128 rent creation_deposit)) ContractError.insufficient_payment
  let s1 = ensure_mother_default caller s
  s2 ← if is_business entry.tla_type then business_count_check_and_bump tla_id s1 else ok s1
  let now = env.block_timestamp
  let sub_entry : SubAccountEntry = record {
    owner = caller;
    tla_id = tla_id;
    main_wallet = main_wallet;
    rented_at = now;
    expires_at = add_u64 now one_year_ns;
    retraction_at = none;
  }
  ok (record {
    state = record s2 { sub_accounts = insert key sub_entry s2.sub_accounts };
    promise =
        then_call
          (one_call (Call.create_sub_account tla_id name owner_key creation_deposit) gas_for_create)
          (Callback.on_sub_account_created tla_id name caller rent attached) gas_for_callback;
  })

unfoldable pub renew_tla : Env → AccountId → Registry → Result ContractError Registry
unfolding assert_not_paused assert_admin refund_excess
renew_tla env tla_id s = do
  assert_not_paused s
  let caller = env.predecessor
  let rent = base_rent (as_u8 (length tla_id)) s.fee_config
  let now = env.block_timestamp
  entry ← ok_or (get tla_id s.tlas) ContractError.tla_not_found
  err_if (not (is_active entry.status)) ContractError.tla_not_active
  err_if (leb (add_u64 entry.expires_at grace_period_ns) now) ContractError.tla_past_grace_period
  if is_business entry.tla_type then assert_licensee caller entry.licensee else assert_admin env s
  let attached = env.attached_deposit
  err_if (ltb attached rent) ContractError.insufficient_payment
  let new_expires_at = add_u64 (max now entry.expires_at) one_year_ns
  let s1 = record s {
    tlas = insert tla_id (record entry { expires_at = new_expires_at }) s.tlas;
    total_revenue = add_u128 s.total_revenue rent;
  }
  ok (
      emit (Event.tla_renewed tla_id new_expires_at rent)
        (refund_excess caller (attached - rent) s1))

unfoldable pub set_main_wallet :
    Env → AccountId → Text → AccountId → Registry → Result ContractError Registry
unfolding assert_one_yocto assert_not_paused
set_main_wallet env tla_id name new_wallet s = do
  assert_one_yocto env
  assert_not_paused s
  let key = sub_account_key tla_id name
  err_if (new_wallet == key) ContractError.main_wallet_equals_sub_account
  sub ← ok_or (get key s.sub_accounts) ContractError.sub_account_not_found
  err_if (not (env.predecessor == sub.owner)) ContractError.only_owner
  ok (
      emit (Event.main_wallet_updated key new_wallet) (record s {
        sub_accounts = insert key (record sub { main_wallet = new_wallet }) s.sub_accounts;
      }))

unfoldable pub renew_sub_account : Env → AccountId → Text → Registry → Result ContractError Registry
unfolding assert_not_paused refund_excess
renew_sub_account env tla_id name s = do
  assert_not_paused s
  let key = sub_account_key tla_id name
  let caller = env.predecessor
  let now = env.block_timestamp
  sub ← ok_or (get key s.sub_accounts) ContractError.sub_account_not_found
  err_if (leb (add_u64 sub.expires_at grace_period_ns) now)
      ContractError.sub_account_past_grace_period
  err_if (not (caller == sub.owner)) ContractError.only_owner
  err_if (is_some sub.retraction_at) ContractError.retraction_pending
  tla ← ok_or (get tla_id s.tlas) ContractError.tla_not_found
  err_if (is_reclaimable (tla_lifecycle now tla)) ContractError.tla_past_grace_period
  let rent = calculate_rent tla tla_id name s.fee_config
  let attached = env.attached_deposit
  err_if (ltb attached rent) ContractError.insufficient_payment
  let new_expires_at = add_u64 (max now sub.expires_at) one_year_ns
  let s1 = record s {
    sub_accounts = insert key (record sub { expires_at = new_expires_at }) s.sub_accounts;
    total_revenue = add_u128 s.total_revenue rent;
  }
  ok (
      emit (Event.sub_account_renewed key new_expires_at rent)
        (refund_excess caller (attached - rent) s1))

-- callbacks.rs. A panic is an error result: the callback then keeps nothing. `success` is
-- `is_promise_success()`.
unfoldable pub on_sub_account_created :
    Bool → AccountId → Text → AccountId → ℕ → ℕ → Registry → Result ContractError Registry
unfolding add_pending_refund refund_excess
on_sub_account_created true tla_id name payer rent attached s = do
  let key = sub_account_key tla_id name
  let charged = add_u128 rent s.fee_config.account_creation_deposit
  let s1 = record s {
    sub_account_count = add_u64 s.sub_account_count 1;
    total_revenue = add_u128 s.total_revenue rent;
  }
  let s2 = refund_excess payer (attached - charged) s1
  sub ← ok_or (get key s2.sub_accounts) ContractError.sub_account_not_found
  ok (emit (Event.sub_account_rented key tla_id payer rent sub.expires_at) s2)
on_sub_account_created false tla_id name payer rent attached s = do
  let key = sub_account_key tla_id name
  let s1 = record s { sub_accounts = remove key s.sub_accounts }
  let s2 = decrement_if_business tla_id s1
  ok (
      emit (Event.refund_pending payer attached BlockReason.creation_failed)
        (add_pending_refund payer attached s2))
