-- ===== src/Fees.antt =====
-- contracts/tla-registry/src/fees.rs: what a name costs per year.
pub mod Bounds
use hos_tla.Base.{ℕ, ◌*◌, ◌/◌, ◌^◌, Text, leb, if◌then◌else◌, mul_u128}
use hos_tla.Types.{AccountId, TlaType, PremiumCategory, TlaEntry, FeeConfig, multiplier, one_near}
use hos_tla.Types.Names.{total_name_length}

-- The `match` on the ranges 0..=5, 6..=8, 9..=10 and the rest.
unfoldable pub base_rent : ℕ → FeeConfig → ℕ
base_rent total_len config =
    if leb total_len 5
    then config.rent_tier_5
    else if leb total_len 8
    then config.rent_tier_8
    else if leb total_len 10
    then config.rent_tier_10
    else config.rent_tier_12plus

unfoldable pub sub_account_rent : ℕ → PremiumCategory → FeeConfig → ℕ
unfolding base_rent multiplier
sub_account_rent total_len category config =
    let base = base_rent total_len config in
    let (num, den) = multiplier category in mul_u128 base num / den

abbrev rent_of_type : TlaType → TlaEntry → AccountId → Text → FeeConfig → ℕ
rent_of_type TlaType.business tla tla_id name config = config.sub_fee_per_account
rent_of_type TlaType.open_tla tla tla_id name config =
    sub_account_rent (total_name_length tla_id name) tla.premium_category config

unfoldable pub calculate_rent : TlaEntry → AccountId → Text → FeeConfig → ℕ
calculate_rent tla = rent_of_type tla.tla_type tla

abbrev pub default_fee_config : FeeConfig
default_fee_config = record {
  tla_allocation_fee = 1000 * one_near;
  rent_tier_5 = 50 * one_near;
  rent_tier_8 = 20 * one_near;
  rent_tier_10 = 10 * one_near;
  rent_tier_12plus = 5 * one_near;
  sub_fee_per_account = one_near / 2;
  account_creation_deposit = 2 * one_near;
  business_max_subs = 1000;
  retraction_notice_ns = 7 * 24 * 60 * 60 * 1_000_000_000;
  resale_commission_bps = 0;
}
