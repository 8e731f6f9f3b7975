-- ===== src/Business.antt =====
-- contracts/tla-registry/src/business.rs: retraction of sub-accounts, and the cap on the number of
-- sub-accounts of a business TLA.
pub mod Retraction
use hos_tla.Base.{
  ◌==◌, ℕ, ◌-◌, Bool, false, not, Option, none, some, Text, length, nat_eq, leb, if◌then◌else◌,
  is_some, unwrap_or, as_u8, add_u32, add_u64, add_u128, mul_u128, Result, ok, err_if, ok_or, ◌>>=◌,
  ◌>>◌,
}
use hos_tla.Base.Maps.{Map, get, insert, remove}
use hos_tla.Types.{AccountId, TlaEntry, is_business}
use hos_tla.Types.Names.{sub_account_key}
use hos_tla.Fees.{base_rent}
use hos_tla.Registry.{
  ContractError, Event, Env, Registry, emit, assert_admin, assert_not_paused, assert_one_yocto,
}

unfoldable pub schedule_retraction :
    Env → AccountId → Text → Registry → Result ContractError Registry
unfolding assert_one_yocto assert_not_paused
schedule_retraction env tla_id name s = do
  assert_one_yocto env
  assert_not_paused s
  let key = sub_account_key tla_id name
  let caller = env.predecessor
  let now = env.block_timestamp
  tla ← ok_or (get tla_id s.tlas) ContractError.tla_not_found
  err_if (not (is_business tla.tla_type)) ContractError.not_business_tla
  sub ← ok_or (get key s.sub_accounts) ContractError.sub_account_not_found
  err_if (not (caller == sub.owner)) ContractError.only_owner
  err_if (is_some sub.retraction_at) ContractError.retraction_already_scheduled
  ok (
      emit (Event.sub_account_retraction_scheduled key now caller) (record s {
        sub_accounts = insert key (record sub { retraction_at = some now }) s.sub_accounts;
      }))

unfoldable pub cancel_retraction : Env → AccountId → Text → Registry → Result ContractError Registry
unfolding assert_one_yocto assert_not_paused
cancel_retraction env tla_id name s = do
  assert_one_yocto env
  assert_not_paused s
  let key = sub_account_key tla_id name
  let caller = env.predecessor
  let now = env.block_timestamp
  sub ← ok_or (get key s.sub_accounts) ContractError.sub_account_not_found
  err_if (not (caller == sub.owner)) ContractError.only_owner
  retraction_at ← ok_or sub.retraction_at ContractError.no_retraction_scheduled
  err_if (leb (add_u64 retraction_at s.fee_config.retraction_notice_ns) now)
      ContractError.retraction_already_elapsed
  ok (
      emit (Event.sub_account_retraction_canceled key caller) (record s {
        sub_accounts = insert key (record sub { retraction_at = none }) s.sub_accounts;
      }))

unfoldable pub get_business_sub_count : AccountId → Registry → ℕ
get_business_sub_count tla_id s = unwrap_or 0 (get tla_id s.business_sub_count)

unfoldable pub effective_business_cap : AccountId → Registry → ℕ
effective_business_cap tla_id s =
    unwrap_or s.fee_config.business_max_subs (get tla_id s.business_sub_cap_override)

-- `Some(value)` sets the override, `None` removes it.
abbrev write_cap : AccountId → Option ℕ → Map ℕ → Map ℕ
write_cap tla_id (some value) m = insert tla_id value m
write_cap tla_id none m = remove tla_id m

unfoldable pub set_business_sub_cap :
    Env → AccountId → Option ℕ → Registry → Result ContractError Registry
unfolding assert_admin
set_business_sub_cap env tla_id cap s = do
  assert_admin env s
  tla ← ok_or (get tla_id s.tlas) ContractError.tla_not_found
  err_if (not (is_business tla.tla_type)) ContractError.not_business_tla
  ok (
      emit (Event.business_sub_cap_set tla_id cap env.predecessor)
        (record s { business_sub_cap_override = write_cap tla_id cap s.business_sub_cap_override }))

pub record BusinessRenewalCostView : Type 0 where
  pub tla_id : AccountId
  pub tla_rent_yocto : ℕ
  pub per_sub_yocto : ℕ
  pub sub_count : ℕ
  pub total_yocto : ℕ

unfoldable pub get_business_renewal_cost :
    AccountId → Registry → Result ContractError BusinessRenewalCostView
get_business_renewal_cost tla_id s = do
  tla ← ok_or (get tla_id s.tlas) ContractError.tla_not_found
  err_if (not (is_business tla.tla_type)) ContractError.not_business_tla
  let tla_rent = base_rent (as_u8 (length tla_id)) s.fee_config
  let per_sub = s.fee_config.sub_fee_per_account
  let count = unwrap_or 0 (get tla_id s.business_sub_count)
  ok (record {
    tla_id = tla_id;
    tla_rent_yocto = tla_rent;
    per_sub_yocto = per_sub;
    sub_count = count;
    total_yocto = add_u128 tla_rent (mul_u128 per_sub count);
  })

unfoldable pub get_retraction_at : AccountId → Text → Registry → Option ℕ
get_retraction_at tla_id name s = elim (get (sub_account_key tla_id name) s.sub_accounts) [
  | none ↦ none
  | some sub ↦ sub.retraction_at
]

unfoldable pub business_count_check_and_bump : AccountId → Registry → Result ContractError Registry
unfolding effective_business_cap
business_count_check_and_bump tla_id s = do
  let cap = effective_business_cap tla_id s
  let count = unwrap_or 0 (get tla_id s.business_sub_count)
  err_if (leb cap count) ContractError.max_business_subs_reached
  ok (record s { business_sub_count = insert tla_id (add_u32 count 1) s.business_sub_count })

unfoldable pub business_count_decrement : AccountId → Registry → Registry
business_count_decrement tla_id s =
    let count = unwrap_or 0 (get tla_id s.business_sub_count) in
    let next = count - 1 in
    if nat_eq count 0
    then s
    else if nat_eq next 0
    then record s { business_sub_count = remove tla_id s.business_sub_count }
    else record s { business_sub_count = insert tla_id next s.business_sub_count }

-- `self.tlas.get(&tla_id).map(|t| t.tla_type == TlaType::Business).unwrap_or(false)`
abbrev pub is_business_tla : Option TlaEntry → Bool
is_business_tla none = false
is_business_tla (some t) = is_business t.tla_type

-- The last step of every path on which a sub-account leaves the registry.
unfoldable pub decrement_if_business : AccountId → Registry → Registry
unfolding business_count_decrement
decrement_if_business tla_id s =
    if is_business_tla (get tla_id s.tlas) then business_count_decrement tla_id s else s
