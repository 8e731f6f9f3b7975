-- ===== src/Fees/Bounds.antt =====
-- What a year's rent can be.
use hos_tla.Base.{ℕ, ◌*◌, ◌/◌, ◌≤◌, ◌≡◌, arith, u128_max}
use hos_tla.Types.{PremiumCategory, FeeConfig}
use hos_tla.Fees.{base_rent, sub_account_rent}

-- The tier of a length, written as the ranges of the price list.
pub base_rent_by_tier :
    (n : ℕ) (config : FeeConfig)
    → (n ≤ 5 → base_rent n config ≡ config.rent_tier_5)
      × (6 ≤ n → n ≤ 8 → base_rent n config ≡ config.rent_tier_8)
      × (9 ≤ n → n ≤ 10 → base_rent n config ≡ config.rent_tier_10)
      × (11 ≤ n → base_rent n config ≡ config.rent_tier_12plus)
unfolding base_rent
base_rent_by_tier n config =
    (λ h. ground arith, λ h k. ground arith, λ h k. ground arith, λ h. ground arith)

-- With a base rent that leaves room for the multiplier, the rent of a name is the exact quotient:
-- five or three times the base, three halves of it rounded down, or nothing.
pub sub_account_rent_exact :
    (n : ℕ) (config : FeeConfig)
    → 5 * base_rent n config ≤ u128_max
    → (sub_account_rent n PremiumCategory.legendary config ≡ 5 * base_rent n config)
      × (sub_account_rent n PremiumCategory.premium config ≡ 3 * base_rent n config)
      × (sub_account_rent n PremiumCategory.standard config ≡ 3 * base_rent n config / 2)
      × (sub_account_rent n PremiumCategory.community config ≡ 0)
unfolding sub_account_rent
sub_account_rent_exact n config h = (omega arith, omega arith, omega arith, omega arith)

-- Whatever the configuration, no rent is above `u128_max`, and none is above five times the base.
pub sub_account_rent_bounds :
    (n : ℕ) (category : PremiumCategory) (config : FeeConfig)
    → (sub_account_rent n category config ≤ u128_max)
      × (sub_account_rent n category config ≤ 5 * base_rent n config)
unfolding sub_account_rent
sub_account_rent_bounds n PremiumCategory.legendary config = omega arith
sub_account_rent_bounds n _ config = omega arith
