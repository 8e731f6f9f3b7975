-- ===== src/Tests/Rentals.antt =====
-- Witnesses for rentals and renewals.
use hos_tla.Base.{
  ◌*◌, ◌+◌, ◌-◌, ◌≡◌, refl, true, false, none, some, [], ◌∷◌, arith, Text, text, text_eq, ◌==◌,
  if◌then◌else◌,
}
use hos_tla.Base.Maps.{get, insert}
use hos_tla.Base.Sets.{contains}
use hos_tla.Types.{TlaType, TlaEntry, one_near}
use hos_tla.Types.Lifecycle.{is_accepting_rentals}
use hos_tla.Types.Names.{
  validate_name, all_name_bytes, is_name_byte, starts_with_separator, ends_with_separator,
  sub_account_key, total_name_length,
}
use hos_tla.Fees.{calculate_rent, sub_account_rent, default_fee_config}
use hos_tla.Core.{get_pending_refund}
use hos_tla.Registry.{Registry, Outcome, Env, new}
use hos_tla.Business.{business_count_check_and_bump, decrement_if_business}
use hos_tla.Mother.{ensure_mother_default}
use hos_tla.Rental.{rent_sub_account, renew_sub_account, on_sub_account_created}
use hos_tla.Rental.Admission.{IsRentable, rental_admitted}
use hos_tla.Rental.Failure.{failed_rental_refunds, failed_rental_leaves_terms}
use hos_tla.Rental.DepositRace.{lowered_deposit_overpays}
use hos_tla.Manager.{Batch, Action, create_sub_account}
use hos_tla.Tests.Scenario.{hos, alice, fun, name, env_of, rented, fun_entry, any_text}
use hos_tla.Tests.Market.{outcome_of, registry_of, listed}

abbrev owner_key : Text
owner_key = text "ed25519:alice"

-- The TLA is active, and nothing is rented below it.
abbrev open_for_rent : Registry
open_for_rent = record (new hos) { tlas = (fun, fun_entry) ∷ [] }

-- The same TLA run by a licensee, `alice.near`.
abbrev licensed_entry : TlaEntry
licensed_entry = record fun_entry { tla_type = TlaType.business; licensee = some alice }

abbrev licensed : Registry
licensed = record (new hos) { tlas = (fun, licensed_entry) ∷ [] }

abbrev paying : Env
paying = env_of alice (20 * one_near) 200

abbrev first : Outcome
first = outcome_of open_for_rent (rent_sub_account paying fun name owner_key alice open_for_rent)

abbrev business : Outcome
business = outcome_of licensed (rent_sub_account paying fun name owner_key alice licensed)

rental_admitted_example : IsRentable paying fun name alice licensed
unfolding rent_sub_account contains get insert text_eq validate_name all_name_bytes is_name_byte
    starts_with_separator ends_with_separator sub_account_key is_accepting_rentals calculate_rent
    sub_account_rent total_name_length ensure_mother_default business_count_check_and_bump
rental_admitted_example = rental_admitted paying fun name owner_key alice licensed business refl

abbrev renewed : Registry
renewed = registry_of rented (renew_sub_account (env_of alice (20 * one_near) 300) fun name rented)

abbrev failed : Registry
failed =
    registry_of rented
      (on_sub_account_created false fun name alice (15 * one_near) (20 * one_near) rented)

failed_rental_refunds_example :
    (get_pending_refund alice failed ≡ get_pending_refund alice rented + 20 * one_near)
    × (failed.total_revenue ≡ rented.total_revenue)
    × ((k : Text)
        → get k failed.sub_accounts
          ≡ (if sub_account_key fun name == k then none else get k rented.sub_accounts))
unfolding on_sub_account_created get get_pending_refund decrement_if_business text_eq
failed_rental_refunds_example =
    failed_rental_refunds fun name alice (15 * one_near) (20 * one_near) rented failed (omega arith)
      (omega arith) refl

-- The renter has put the name on the list before the account was there.
abbrev failed_listed : Registry
failed_listed =
    registry_of listed
      (on_sub_account_created false fun name alice (15 * one_near) (20 * one_near) listed)

failed_rental_leaves_terms_example :
    (get (sub_account_key fun name) failed_listed.sub_accounts ≡ none)
    × (failed_listed.listings ≡ listed.listings)
    × (failed_listed.accepted_offers ≡ listed.accepted_offers)
    × (failed_listed.mother_use_count ≡ listed.mother_use_count)
unfolding on_sub_account_created decrement_if_business get text_eq
failed_rental_leaves_terms_example =
    failed_rental_leaves_terms fun name alice (15 * one_near) (20 * one_near) listed failed_listed
      refl

-- The configured deposit is 1 unit when the rental that took 5 along is settled.
abbrev lowered : Registry
lowered = record rented { fee_config = record default_fee_config { account_creation_deposit = 1 } }

abbrev overpaid : Registry
overpaid = registry_of lowered (on_sub_account_created true fun name alice 10 20 lowered)

lowered_deposit_overpays_example :
    overpaid.total_revenue + overpaid.total_pending_refunds
    ≡ lowered.total_revenue + lowered.total_pending_refunds + (20 - 5) + (5 - 1)
unfolding on_sub_account_created get text_eq sub_account_key
lowered_deposit_overpays_example =
    lowered_deposit_overpays fun name alice 10 20 5 lowered overpaid (omega arith) (omega arith)
      (omega arith) refl

abbrev at_fun : hos_tla.Manager.Env
at_fun = record {
  predecessor = hos;
  current = fun;
  attached_deposit = 100;
  is_account_id = any_text;
}

abbrev created : Batch
created = record {
  receiver = sub_account_key fun name;
  actions =
      Action.create_account
      ∷ Action.transfer 100
      ∷ Action.deploy_locker
      ∷ Action.init_locker hos owner_key
      ∷ [];
}
