-- ===== src/Tests/Counts.antt =====
-- A name is rented under the business TLA `corp`.
use hos_tla.Base.{
  ◌*◌, ◌+◌, ◌≡◌, refl, arith, Option, none, some, [], ◌∷◌, ◌++◌, text, text_eq, eq_iff,
}
use hos_tla.Base.Maps.{get, insert}
use hos_tla.Base.Maps.Sums.{sum_by}
use hos_tla.Base.Sets.{contains}
use hos_tla.Types.{AccountId, TlaType, TlaStatus, TlaEntry, PremiumCategory, one_near, one_year_ns}
use hos_tla.Types.Names.{
  validate_name, all_name_bytes, is_name_byte, starts_with_separator, ends_with_separator,
  sub_account_key, total_name_length,
}
use hos_tla.Types.Lifecycle.{is_accepting_rentals}
use hos_tla.Fees.{calculate_rent, sub_account_rent, base_rent}
use hos_tla.Mother.{ensure_mother_default}
use hos_tla.Registry.{Registry, Promise, new}
use hos_tla.Business.{get_business_sub_count, business_count_check_and_bump, effective_business_cap}
use hos_tla.System.{Op, call}
use hos_tla.System.Census.{under}
use hos_tla.System.Census.Traces.{NoDots}
use hos_tla.System.World.{World, requests, start, called, Reach, AllAdded, here, next}
use hos_tla.System.World.Counted.{business_count_exact}
use hos_tla.Tests.Scenario.{hos, alice, name, env_of, state_of, promise_of}

abbrev corp : AccountId
corp = text "corp"

abbrev register : Op
register = Op.register_tla corp TlaType.business PremiumCategory.standard (some alice)

abbrev rent : Op
rent = Op.rent_sub_account corp name (text "ed25519:alice") alice

abbrev registered : Registry
registered = state_of (new hos) (call (env_of hos 0 50) register (new hos))

abbrev activated : Registry
activated =
    state_of registered
      (call (env_of alice (100_000 * one_near) 100) (Op.activate_tla corp) registered)

abbrev renting : Registry
renting = state_of activated (call (env_of alice (20 * one_near) 200) rent activated)

abbrev rent_promise : Option Promise
rent_promise = promise_of (call (env_of alice (20 * one_near) 200) rent activated)

abbrev world_of : Registry → World
world_of s = record { registry = s; accounts = []; pending = [] }

abbrev asking : World
asking = record (world_of renting) { pending = requests rent_promise ++ [] }

abbrev corp_entry : TlaEntry
corp_entry = record {
  tla_type = TlaType.business;
  status = TlaStatus.active;
  licensee = some alice;
  premium_category = PremiumCategory.standard;
  activated_at = 100;
  expires_at = 100 + one_year_ns;
}

one_tla : renting.tlas ≡ (corp, corp_entry) ∷ []
unfolding call get insert contains text_eq validate_name all_name_bytes is_name_byte
    starts_with_separator ends_with_separator sub_account_key is_accepting_rentals calculate_rent
    sub_account_rent total_name_length ensure_mother_default business_count_check_and_bump
    effective_business_cap base_rent
one_tla = refl

no_dots : NoDots renting
unfolding get text_eq
no_dots a k e = ground (arith, one_tla, eq_iff corp a)

at_asking : (r : Reach hos (start hos) asking) × AllAdded hos (start hos) asking r
unfolding call get insert contains text_eq validate_name all_name_bytes is_name_byte
    starts_with_separator ends_with_separator sub_account_key is_accepting_rentals calculate_rent
    sub_account_rent total_name_length ensure_mother_default business_count_check_and_bump
    effective_business_cap base_rent
at_asking = (
  next
      (next (next here (called (start hos) (env_of hos 0 50) register registered none refl tt)) (
        called (world_of registered) (env_of alice (100_000 * one_near) 100) (Op.activate_tla corp)
          activated none refl tt))
      (called (world_of activated) (env_of alice (20 * one_near) 200) rent renting rent_promise refl
        tt),
  (tt, (tt, (tt, tt))),
)

business_count_exact_example :
    get_business_sub_count corp renting ≡ sum_by (under corp) renting.sub_accounts
unfolding get text_eq
business_count_exact_example =
    business_count_exact hos hos corp asking corp_entry at_asking.0 at_asking.1 no_dots
      (rw one_tla refl) refl
