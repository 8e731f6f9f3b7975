-- ===== src/Tests/Locks.antt =====
-- The sale of `alice.fun` on the network: listed, locked by a purchase, settled.
use hos_tla.Base.{
  ◌*◌, ◌+◌, ◌-◌, ◌≤◌, ◌<◌, ◌≡◌, refl, true, false, Option, none, [], ◌++◌, arith, Text, text,
  text_eq,
}
use hos_tla.Base.Maps.{get, insert}
use hos_tla.Base.Sets.{contains}
use hos_tla.Types.{one_near}
use hos_tla.Types.Names.{
  validate_name, all_name_bytes, is_name_byte, starts_with_separator, ends_with_separator,
  sub_account_key, total_name_length,
}
use hos_tla.Types.Lifecycle.{is_accepting_rentals, effective_sub_lifecycle}
use hos_tla.Fees.{calculate_rent, sub_account_rent}
use hos_tla.Mother.{ensure_mother_default, get_mother_use_count}
use hos_tla.Marketplace.{assert_sellable}
use hos_tla.Registry.{Registry, Promise, Callback}
use hos_tla.System.{Op, call, resolve}
use hos_tla.System.Network.{Network, launch, start, called, resolved, Reach, next}
use hos_tla.System.Locks.{is_settling, sales}
use hos_tla.System.Locks.Released.{always-IsReleasable}
use hos_tla.System.Locks.Drained.{
  Lands, rest, land, rounds_left, callbacks_end, Schedule, land_all, all_released,
}
use hos_tla.System.Slots.Histories.{history, run, IsLawful, slot_history}
use hos_tla.Tests.Scenario.{hos, alice, bob, fun, name, key, env_of, state_of, promise_of, fine}
use hos_tla.Tests.Network.{renting, in_rent, at_rent}

abbrev created_callback : Callback
created_callback = Callback.on_sub_account_created fun name alice (15 * one_near) (20 * one_near)

abbrev confirmed : Registry
confirmed = state_of renting (resolve (env_of hos 0 210) fine created_callback renting)

abbrev in_confirmed : Network
in_confirmed = record {
  registry = confirmed;
  in_flight = [];
  holdings = 20 * one_near - 2 * one_near;
}

abbrev list : Op
list = Op.list_sub_account fun name (5 * one_near)

abbrev listing : Registry
listing = state_of confirmed (call (env_of alice 1 300) list confirmed)

abbrev in_listing : Network
in_listing = record { registry = listing; in_flight = []; holdings = 18 * one_near + 1 }

abbrev buy : Op
buy = Op.buy_sub_account fun name (text "ed25519:bob")

abbrev buying : Registry
buying = state_of listing (call (env_of bob (7 * one_near) 310) buy listing)

abbrev buy_asked : Option Promise
buy_asked = promise_of (call (env_of bob (7 * one_near) 310) buy listing)

abbrev in_buying : Network
in_buying = record {
  registry = buying;
  in_flight = launch buy_asked ++ [];
  holdings = 25 * one_near + 1;
}

abbrev sold_callback : Callback
sold_callback = Callback.on_sub_account_sold fun name bob (5 * one_near) (7 * one_near)

abbrev sold : Registry
sold = state_of buying (resolve (env_of hos 0 320) fine sold_callback buying)

abbrev in_sold : Network
in_sold = record { registry = sold; in_flight = []; holdings = 25 * one_near + 1 }

at_confirmed : Reach (start hos) in_confirmed
unfolding resolve call get insert contains text_eq validate_name all_name_bytes is_name_byte
    starts_with_separator ends_with_separator sub_account_key is_accepting_rentals calculate_rent
    sub_account_rent total_name_length ensure_mother_default
at_confirmed = next at_rent (
    resolved in_rent (env_of hos 0 210) fine []
      (record { callback = created_callback; sent = 2 * one_near }) [] confirmed none refl refl)

at_listing : Reach (start hos) in_listing
unfolding resolve call get insert contains text_eq validate_name all_name_bytes is_name_byte
    starts_with_separator ends_with_separator sub_account_key is_accepting_rentals calculate_rent
    sub_account_rent total_name_length ensure_mother_default get_mother_use_count assert_sellable
    effective_sub_lifecycle
at_listing =
    next at_confirmed
      (called in_confirmed (env_of alice 1 300) list listing none refl tt (omega arith))

at_buying : Reach (start hos) in_buying
unfolding resolve call get insert contains text_eq validate_name all_name_bytes is_name_byte
    starts_with_separator ends_with_separator sub_account_key is_accepting_rentals calculate_rent
    sub_account_rent total_name_length ensure_mother_default get_mother_use_count assert_sellable
    effective_sub_lifecycle
at_buying =
    next at_listing
      (called in_listing (env_of bob (7 * one_near) 310) buy buying buy_asked refl tt (omega arith))

settling : is_settling key in_buying.registry ≡ true
unfolding resolve call get insert contains text_eq validate_name all_name_bytes is_name_byte
    starts_with_separator ends_with_separator sub_account_key is_accepting_rentals calculate_rent
    sub_account_rent total_name_length ensure_mother_default get_mother_use_count assert_sellable
    effective_sub_lifecycle
settling = refl

sold_run : Lands in_buying 1 in_sold
unfolding resolve call get insert contains text_eq validate_name all_name_bytes is_name_byte
    starts_with_separator ends_with_separator sub_account_key is_accepting_rentals calculate_rent
    sub_account_rent total_name_length ensure_mother_default get_mother_use_count assert_sellable
    effective_sub_lifecycle
sold_run =
    land rest
      (resolved in_buying (env_of hos 0 320) fine [] (record { callback = sold_callback; sent = 0 })
        [] sold none refl refl)
      tt

always-IsReleasable_example : 0 < sales key in_buying.in_flight
always-IsReleasable_example = always-IsReleasable hos in_buying key at_buying settling

callbacks_end_example : 1 + rounds_left in_sold.in_flight ≤ rounds_left in_buying.in_flight
callbacks_end_example = callbacks_end in_buying in_sold 1 sold_run

abbrev all_fine : Schedule
all_fine n = (env_of hos 0 320, fine)

all_released_example :
    let q = land_all (rounds_left in_buying.in_flight) all_fine in_buying in
    (q.in_flight ≡ []) × ((k : Text) → is_settling k q.registry ≡ false)
all_released_example = all_released hos all_fine in_buying at_buying

slot_history_example :
    (get key in_buying.registry.sub_accounts
      ≡ run (history key (start hos) in_buying at_buying) none)
    × IsLawful key (start hos) in_buying at_buying
slot_history_example = slot_history hos key in_buying at_buying
