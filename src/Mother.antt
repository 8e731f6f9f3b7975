-- ===== src/Mother.antt =====
-- contracts/tla-registry/src/mother.rs: each user's mother account, and how many users have an
-- account as their mother. `effective_sub_lifecycle` is in Types/Lifecycle.antt.
pub mod Counting
use hos_tla.Base.{
  ◌==◌, ℕ, ◌-◌, Bool, false, not, Option, none, some, nat_eq, ltb, if◌then◌else◌, unwrap_or,
  add_u32, Result, ok, err_if, ok_or, ◌>>=◌, ◌>>◌,
}
use hos_tla.Base.Maps.{get, contains_key, insert, remove}
use hos_tla.Types.{AccountId, SubAccountEntry, is_reclaimable}
use hos_tla.Types.Lifecycle.{effective_sub_lifecycle}
use hos_tla.Registry.{
  ContractError, Event, MotherSource, Env, Registry, emit, assert_admin, assert_not_paused,
  assert_one_yocto,
}

unfoldable pub get_mother : AccountId → Registry → Option AccountId
get_mother user s = get user s.mothers

unfoldable pub get_mother_use_count : AccountId → Registry → ℕ
get_mother_use_count account s = unwrap_or 0 (get account s.mother_use_count)

unfoldable pub is_mother : AccountId → Registry → Bool
is_mother account s = ltb 0 (unwrap_or 0 (get account s.mother_use_count))

unfoldable pub increment_mother_use : AccountId → Registry → Registry
increment_mother_use account s =
    let next = add_u32 (unwrap_or 0 (get account s.mother_use_count)) 1 in
    record s { mother_use_count = insert account next s.mother_use_count }

unfoldable pub decrement_mother_use : AccountId → Registry → Registry
decrement_mother_use account s =
    let next = unwrap_or 0 (get account s.mother_use_count) - 1 in
    if nat_eq next 0
    then record s { mother_use_count = remove account s.mother_use_count }
    else record s { mother_use_count = insert account next s.mother_use_count }

unfoldable pub admin_clear_mother : Env → AccountId → Registry → Result ContractError Registry
unfolding assert_admin decrement_mother_use
admin_clear_mother env user s = do
  assert_admin env s
  previous ← ok_or (get user s.mothers) ContractError.mother_not_set
  ok (
      emit (Event.mother_cleared user previous env.predecessor)
        (decrement_mother_use previous (record s { mothers = remove user s.mothers })))

unfoldable pub ensure_mother_default : AccountId → Registry → Registry
unfolding contains_key increment_mother_use
ensure_mother_default user s =
    let s1 = record s { mothers = insert user user s.mothers } in
    let s2 = if contains_key user s1.sub_accounts then increment_mother_use user s1 else s1 in
    if contains_key user s.mothers
    then s
    else emit (Event.mother_set user user MotherSource.default) s2

-- `if let Some(sub) = self.sub_accounts.get(&key) { … }` of `set_mother_internal`.
abbrev check_managed_mother :
    Env → AccountId → Registry → Option SubAccountEntry → Result ContractError (Unit {0})
check_managed_mother env user s none = ok tt
check_managed_mother env user s (some sub) = do
  err_if (not (sub.owner == user)) ContractError.only_owner
  tla ← ok_or (get sub.tla_id s.tlas) ContractError.tla_not_found
  err_if
      (is_reclaimable
        (effective_sub_lifecycle env.block_timestamp sub tla s.fee_config.retraction_notice_ns))
      ContractError.mother_is_reclaimable

abbrev leave_old_mother : Option AccountId → Registry → Registry
leave_old_mother none s = s
leave_old_mother (some old_mother) s = decrement_mother_use old_mother s

-- The rest of `set_mother_internal`, from the user's old mother.
abbrev replace_mother :
    AccountId → AccountId → MotherSource → Registry → Option AccountId → Registry
replace_mother user new_mother source s old =
    let s1 = leave_old_mother old s in
    let s2 = record s1 { mothers = insert user new_mother s1.mothers } in
    let s3 =
      if contains_key new_mother s.sub_accounts then increment_mother_use new_mother s2 else s2 in
    emit (Event.mother_set user new_mother source) s3

abbrev same_mother : AccountId → Option AccountId → Bool
same_mother new_mother none = false
same_mother new_mother (some old_mother) = old_mother == new_mother

unfoldable pub set_mother_internal :
    Env → AccountId → AccountId → MotherSource → Registry → Result ContractError Registry
unfolding contains_key increment_mother_use decrement_mother_use
set_mother_internal env user new_mother source s = do
  check_managed_mother env user s (get new_mother s.sub_accounts)
  let old = get user s.mothers
  if same_mother new_mother old then ok s else ok (replace_mother user new_mother source s old)

unfoldable pub set_mother : Env → AccountId → Registry → Result ContractError Registry
unfolding assert_one_yocto assert_not_paused set_mother_internal
set_mother env new_mother s = do
  assert_one_yocto env
  assert_not_paused s
  set_mother_internal env env.predecessor new_mother MotherSource.explicit s
