-- ===== src/Rental/DepositRace.antt =====
-- A rental in flight while an admin lowers the creation deposit.
use hos_tla.Base.{ℕ, ◌+◌, ◌-◌, ◌≤◌, ◌<◌, ◌≡◌, true, arith, Text, u128_max, ok}
use hos_tla.Types.{AccountId}
use hos_tla.Registry.{Registry}
use hos_tla.Rental.{on_sub_account_created}

-- The flaw: the callback of a rental takes the creation deposit that is configured when it runs.
-- If a larger deposit `sent` went out with the rental, and the sums stay in range, the revenue and
-- the refunds grow by more than the attached money less `sent`, by the difference of the two
-- deposits.
pub lowered_deposit_overpays :
    (tla_id : AccountId) (name : Text) (payer : AccountId) (rent attached sent : ℕ) (s t : Registry)
    → rent + sent ≤ attached
    → s.fee_config.account_creation_deposit < sent
    → s.total_revenue + s.total_pending_refunds + attached ≤ u128_max
    → on_sub_account_created true tla_id name payer rent attached s ≡ ok t
    → t.total_revenue + t.total_pending_refunds
      ≡ s.total_revenue
        + s.total_pending_refunds
        + (attached - sent)
        + (sent - s.fee_config.account_creation_deposit)
unfolding on_sub_account_created
lowered_deposit_overpays tla_id name payer rent attached sent s t paid lower fits h = ground arith
