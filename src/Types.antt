-- ===== src/Types.antt =====
-- contracts/tla-registry/src/types.rs: the stored data, the views, life cycles and names. Amounts
-- are yoctoNEAR (`u128`), instants are nanoseconds (`u64`).
pub mod Lifecycle
pub mod Names
use hos_tla.Base.{ℕ, ◌*◌, ◌^◌, Bool, true, false, Option, Text}

abbrev pub AccountId : Type 0
AccountId = Text

-- The SDK's access keys, which the contracts store and pass on.
abbrev pub PublicKey : Type 0
PublicKey = Text

abbrev pub one_near : ℕ
one_near = 10 ^ 24

abbrev pub one_year_ns : ℕ
one_year_ns = 365 * 24 * 60 * 60 * 1_000_000_000

abbrev pub grace_period_ns : ℕ
grace_period_ns = 14 * 24 * 60 * 60 * 1_000_000_000

pub data TlaType : Type 0 where
  business open_tla : TlaType

abbrev pub is_business : TlaType → Bool
is_business TlaType.business = true
is_business TlaType.open_tla = false

pub data TlaStatus : Type 0 where
  registered active suspended : TlaStatus

-- `status == TlaStatus::Registered`, and so on: the derived `PartialEq`.
abbrev pub is_registered : TlaStatus → Bool
is_registered TlaStatus.registered = true
is_registered _ = false

abbrev pub is_active : TlaStatus → Bool
is_active TlaStatus.active = true
is_active _ = false

abbrev pub is_suspended : TlaStatus → Bool
is_suspended TlaStatus.suspended = true
is_suspended _ = false

pub data PremiumCategory : Type 0 where
  legendary premium standard community : PremiumCategory

-- `PremiumCategory::multiplier`, as a numerator and a denominator.
unfoldable pub multiplier : PremiumCategory → ℕ × ℕ
multiplier PremiumCategory.legendary = (5, 1)
multiplier PremiumCategory.premium = (3, 1)
multiplier PremiumCategory.standard = (3, 2)
multiplier PremiumCategory.community = (0, 1)

pub record TlaEntry : Type 0 where
  pub tla_type : TlaType
  pub status : TlaStatus
  pub licensee : Option AccountId
  pub premium_category : PremiumCategory
  pub activated_at : ℕ
  pub expires_at : ℕ

pub record SubAccountEntry : Type 0 where
  pub owner : AccountId
  pub tla_id : AccountId
  pub main_wallet : AccountId
  pub rented_at : ℕ
  pub expires_at : ℕ
  pub retraction_at : Option ℕ

pub record Listing : Type 0 where
  pub price : ℕ
  pub settling : Bool

pub record AcceptedOffer : Type 0 where
  pub buyer : AccountId
  pub price : ℕ
  pub settling : Bool

pub record FeeConfig : Type 0 where
  pub tla_allocation_fee : ℕ
  pub rent_tier_5 : ℕ
  pub rent_tier_8 : ℕ
  pub rent_tier_10 : ℕ
  pub rent_tier_12plus : ℕ
  pub sub_fee_per_account : ℕ
  pub account_creation_deposit : ℕ
  pub business_max_subs : ℕ
  pub retraction_notice_ns : ℕ
  pub resale_commission_bps : ℕ

pub data LifecycleStatus : Type 0 where
  registered active grace reclaimable suspended : LifecycleStatus

-- `matches!(l, LifecycleStatus::Reclaimable)` and `matches!(l, LifecycleStatus::Active)`.
abbrev pub is_reclaimable : LifecycleStatus → Bool
is_reclaimable LifecycleStatus.reclaimable = true
is_reclaimable _ = false

abbrev pub is_live : LifecycleStatus → Bool
is_live LifecycleStatus.active = true
is_live _ = false
