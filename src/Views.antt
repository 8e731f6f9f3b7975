-- ===== src/Views.antt =====
-- contracts/tla-registry/src/views.rs: what a client reads.
pub mod Pages
use hos_tla.Base.{
  ℕ, zero, suc, Bool, not, Option, none, some, List, [], ◌∷◌, Text, length, as_u8, as_usize,
  add_u128, Result, ok, ok_or, ◌>>=◌,
}
use hos_tla.Base.Maps.{get, contains_key}
use hos_tla.Types.{
  AccountId, TlaType, PremiumCategory, TlaEntry, SubAccountEntry, FeeConfig, LifecycleStatus,
}
use hos_tla.Types.Lifecycle.{tla_lifecycle, sub_lifecycle}
use hos_tla.Types.Names.{sub_account_key}
use hos_tla.Fees.{base_rent, calculate_rent}
use hos_tla.Registry.{ContractError, Registry}

pub record TlaView : Type 0 where
  pub tla_id : AccountId
  pub tla_type : TlaType
  pub lifecycle : LifecycleStatus
  pub licensee : Option AccountId
  pub premium_category : PremiumCategory
  pub activated_at : ℕ
  pub expires_at : ℕ
  pub annual_rent : ℕ

pub record SubAccountView : Type 0 where
  pub full_name : Text
  pub owner : AccountId
  pub tla_id : AccountId
  pub main_wallet : AccountId
  pub lifecycle : LifecycleStatus
  pub rented_at : ℕ
  pub expires_at : ℕ
  pub annual_rent : ℕ

pub record RentPriceView : Type 0 where
  pub rent_yocto : ℕ
  pub creation_deposit_yocto : ℕ
  pub total_yocto : ℕ

pub record RegistryStats : Type 0 where
  pub tla_count : ℕ
  pub sub_account_count : ℕ
  pub total_revenue_yocto : ℕ
  pub total_pending_refunds_yocto : ℕ

unfoldable pub to_tla_view : ℕ → AccountId → TlaEntry → FeeConfig → TlaView
to_tla_view now tla_id entry config = record {
  tla_id = tla_id;
  tla_type = entry.tla_type;
  lifecycle = tla_lifecycle now entry;
  licensee = entry.licensee;
  premium_category = entry.premium_category;
  activated_at = entry.activated_at;
  expires_at = entry.expires_at;
  annual_rent = base_rent (as_u8 (length tla_id)) config;
}

unfoldable pub to_sub_view :
    ℕ → Text → SubAccountEntry → TlaEntry → AccountId → Text → FeeConfig → SubAccountView
to_sub_view now key entry tla tla_id name config = record {
  full_name = key;
  owner = entry.owner;
  tla_id = entry.tla_id;
  main_wallet = entry.main_wallet;
  lifecycle = sub_lifecycle now entry;
  rented_at = entry.rented_at;
  expires_at = entry.expires_at;
  annual_rent = calculate_rent tla tla_id name config;
}

abbrev view_tla : ℕ → AccountId → FeeConfig → Option TlaEntry → Option TlaView
view_tla now tla_id config none = none
view_tla now tla_id config (some e) = some (to_tla_view now tla_id e config)

unfoldable pub get_tla : ℕ → AccountId → Registry → Option TlaView
unfolding to_tla_view
get_tla now tla_id s = view_tla now tla_id s.fee_config (get tla_id s.tlas)

abbrev view_sub :
    ℕ
    → AccountId
    → Text
    → Registry
    → Option SubAccountEntry
    → Result ContractError (Option SubAccountView)
view_sub now tla_id name s none = ok none
view_sub now tla_id name s (some sub) = do
  tla ← ok_or (get tla_id s.tlas) ContractError.tla_not_found
  ok (some (to_sub_view now (sub_account_key tla_id name) sub tla tla_id name s.fee_config))

-- A sub-account whose TLA is missing panics.
unfoldable pub get_sub_account :
    ℕ → AccountId → Text → Registry → Result ContractError (Option SubAccountView)
unfolding to_sub_view
get_sub_account now tla_id name s =
    view_sub now tla_id name s (get (sub_account_key tla_id name) s.sub_accounts)

unfoldable pub get_rent_price : AccountId → Text → Registry → Result ContractError RentPriceView
get_rent_price tla_id name s = do
  tla ← ok_or (get tla_id s.tlas) ContractError.tla_not_found
  let rent = calculate_rent tla tla_id name s.fee_config
  let deposit = s.fee_config.account_creation_deposit
  ok (record {
    rent_yocto = rent;
    creation_deposit_yocto = deposit;
    total_yocto = add_u128 rent deposit;
  })

unfoldable pub is_name_available : AccountId → Text → Registry → Bool
unfolding contains_key
is_name_available tla_id name s = not (contains_key (sub_account_key tla_id name) s.sub_accounts)

-- `skip(from_index).take(limit)`
unfoldable pub page {ℓ} : {A : Type ℓ} → ℕ → ℕ → List A → List A
page from limit [] = []
page zero zero (x ∷ xs) = []
page zero (suc limit) (x ∷ xs) = x ∷ page zero limit xs
page (suc from) limit (x ∷ xs) = page from limit xs

abbrev view_entries : ℕ → FeeConfig → List (AccountId × TlaEntry) → List TlaView
view_entries now config [] = []
view_entries now config ((id, e) ∷ rest) =
    to_tla_view now id e config ∷ view_entries now config rest

unfoldable pub list_tlas : ℕ → ℕ → ℕ → Registry → List TlaView
unfolding page to_tla_view
list_tlas now from_index limit s =
    view_entries now s.fee_config (page (as_usize from_index) (as_usize limit) s.tlas)

unfoldable pub get_stats : Registry → RegistryStats
get_stats s = record {
  tla_count = length s.tlas;
  sub_account_count = s.sub_account_count;
  total_revenue_yocto = s.total_revenue;
  total_pending_refunds_yocto = s.total_pending_refunds;
}

unfoldable pub get_fee_config : Registry → FeeConfig
get_fee_config s = s.fee_config

unfoldable pub get_admins : Registry → List AccountId
get_admins s = s.admins

unfoldable pub get_ft_allowlist : Registry → List AccountId
get_ft_allowlist s = s.ft_allowlist

unfoldable pub get_nft_allowlist : Registry → List AccountId
get_nft_allowlist s = s.nft_allowlist
