-- ===== src/Tests/Network.antt =====
-- Reachable states of the network.
use hos_tla.Base.{◌*◌, ◌+◌, ◌≤◌, ◌≡◌, refl, Option, none, [], ◌++◌, arith, text_eq}
use hos_tla.Base.Maps.{get, insert}
use hos_tla.Base.Sets.{contains}
use hos_tla.Types.Names.{
  validate_name, all_name_bytes, is_name_byte, starts_with_separator, ends_with_separator,
  sub_account_key,
}
use hos_tla.Types.Lifecycle.{is_accepting_rentals}
use hos_tla.Fees.{calculate_rent, sub_account_rent}
use hos_tla.Types.Names.{total_name_length}
use hos_tla.Mother.{ensure_mother_default}
use hos_tla.Base.Maps.Sums.{sum_by}
use hos_tla.Types.{one_near}
use hos_tla.Registry.{Env, Registry, Promise, new}
use hos_tla.System.{Op, call}
use hos_tla.System.Ledger.{amount}
use hos_tla.System.Network.{Network, launch, start, called, Reach, here, next}
use hos_tla.System.Solvency.{held_all, solvency}
use hos_tla.System.Configuration.{IsConfigured, always-IsConfigured}
use hos_tla.System.Gas.{reclaim_fits}
use hos_tla.Types.{one_year_ns, grace_period_ns}
use hos_tla.Registry.{static_gas}
use hos_tla.Mother.{get_mother_use_count}
use hos_tla.Types.Lifecycle.{effective_sub_lifecycle}
use hos_tla.Reclaim.{reclaim_finalize, reclaim_destination, delete_promise}
use hos_tla.Tests.Scenario.{
  hos, alice, bob, fun, name, env_of, state_of, promise_of, register, rent, rented,
}

abbrev pub registered : Registry
registered = state_of (new hos) (call (env_of hos 0 50) register (new hos))

abbrev pub activated : Registry
activated = state_of registered (call (env_of hos 0 100) (Op.activate_open_tla fun) registered)

abbrev pub paid : Env
paid = env_of alice (20 * one_near) 200

abbrev pub renting : Registry
renting = state_of activated (call paid rent activated)

abbrev pub rent_promise : Option Promise
rent_promise = promise_of (call paid rent activated)

abbrev pub in_rent : Network
in_rent = record {
  registry = renting;
  in_flight = launch rent_promise ++ [];
  holdings = 0 + 0 + 0 + 20 * one_near;
}

-- Four steps: the TLA is registered and activated, the name is rented and created.
at_registered :
    Reach (start hos) (record { registry = registered; in_flight = []; holdings = 0 + 0 })
unfolding call get insert contains text_eq
at_registered =
    next here (called (start hos) (env_of hos 0 50) register registered none refl tt (omega arith))

at_activated :
    Reach (start hos) (record { registry = activated; in_flight = []; holdings = 0 + 0 + 0 })
unfolding call get insert contains text_eq
at_activated = next at_registered (
    called (record { registry = registered; in_flight = []; holdings = 0 + 0 }) (env_of hos 0 100)
      (Op.activate_open_tla fun) activated none refl tt (omega arith))

pub at_rent : Reach (start hos) in_rent
unfolding call get insert contains text_eq validate_name all_name_bytes is_name_byte
    starts_with_separator ends_with_separator sub_account_key is_accepting_rentals calculate_rent
    sub_account_rent total_name_length ensure_mother_default
at_rent = next at_activated (
    called (record { registry = activated; in_flight = []; holdings = 0 + 0 + 0 }) paid rent renting
      rent_promise refl tt (omega arith))

rented-in_rent :
    (in_rent.registry.sub_accounts ≡ rented.sub_accounts)
    × (held_all in_rent.in_flight ≡ 20 * one_near)
unfolding call get insert contains text_eq validate_name all_name_bytes is_name_byte
    starts_with_separator ends_with_separator sub_account_key is_accepting_rentals calculate_rent
    sub_account_rent total_name_length ensure_mother_default
rented-in_rent = (refl, refl)

solvency_example :
    (in_rent.registry.total_revenue
        + in_rent.registry.total_pending_refunds
        + held_all in_rent.in_flight
      ≤ in_rent.holdings)
    × (sum_by amount in_rent.registry.pending_refunds ≡ in_rent.registry.total_pending_refunds)
solvency_example = solvency hos in_rent at_rent

always-IsConfigured_example : IsConfigured in_rent.registry
always-IsConfigured_example = always-IsConfigured hos in_rent at_rent

reclaim_fits_example : static_gas (delete_promise fun name alice) ≤ 300
unfolding reclaim_finalize reclaim_destination call get insert contains text_eq validate_name
    all_name_bytes is_name_byte starts_with_separator ends_with_separator sub_account_key
    is_accepting_rentals calculate_rent sub_account_rent total_name_length ensure_mother_default
    effective_sub_lifecycle get_mother_use_count
reclaim_fits_example =
    reclaim_fits hos in_rent (env_of bob 0 (300 + one_year_ns + grace_period_ns)) fun name
      (delete_promise fun name alice) at_rent refl
