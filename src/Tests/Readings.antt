-- ===== src/Tests/Readings.antt =====
-- Witnesses for the pages of the views, a retraction that is taken back, and a key under two TLAs.
use hos_tla.Base.{◌+◌, ◌*◌, ◌≡◌, refl, [], ◌∷◌, ◌++◌, arith, Text, text, text_eq, length, ok}
use hos_tla.Base.Maps.{get, insert}
use hos_tla.Types.{SubAccountEntry, TlaType, one_year_ns, grace_period_ns}
use hos_tla.Types.Names.{sub_account_key}
use hos_tla.Registry.{Registry}
use hos_tla.Mother.{get_mother_use_count}
use hos_tla.Business.{schedule_retraction, cancel_retraction}
use hos_tla.Business.Retraction.{SameTerms, retraction_taken_back}
use hos_tla.Reclaim.{reclaim_finalize, finalize_promise}
use hos_tla.Reclaim.Readings.{other_tla_reclaims}
use hos_tla.Views.{list_tlas, get_stats}
use hos_tla.Views.Pages.{pages_join}
use hos_tla.Tests.Market.{registry_of}
use hos_tla.Tests.Scenario.{alice, bob, fun, name, env_of, rented, fun_entry, alice_entry}

abbrev three_tlas : Registry
three_tlas = record rented {
  tlas = (fun, fun_entry) ∷ (text "one", fun_entry) ∷ (text "two", fun_entry) ∷ [];
}

pages_join_example :
    (list_tlas 300 0 3 three_tlas ≡ list_tlas 300 0 2 three_tlas ++ list_tlas 300 2 1 three_tlas)
    × (length (list_tlas 300 0 5 three_tlas) ≡ (get_stats three_tlas).tla_count)
pages_join_example = pages_join 300 0 2 1 5 three_tlas (omega arith) (omega arith) (omega arith)

-- `fun` as a business TLA, where the owner of `alice.fun` announces a retraction and thinks again.
abbrev business : Registry
business = record rented { tlas = (fun, record fun_entry { tla_type = TlaType.business }) ∷ [] }

abbrev announced : Registry
announced = registry_of business (schedule_retraction (env_of alice 1 300) fun name business)

retraction_taken_back_example :
    (v : Registry) × (cancel_retraction (env_of alice 1 301) fun name announced ≡ ok v)
    × SameTerms business v
unfolding schedule_retraction get insert text_eq sub_account_key
retraction_taken_back_example =
    retraction_taken_back (env_of alice 1 300) (env_of alice 1 301) fun name business announced refl
      refl refl (omega arith) (omega arith)

-- `mid.fun` is a TLA of its own, and `alice.mid.fun` is rented there to the end of year 3.
abbrev middle : Text
middle = text "mid"

abbrev alice_mid : SubAccountEntry
alice_mid = record alice_entry { tla_id = text "mid.fun"; expires_at = 3 * one_year_ns }

abbrev two_levels : Registry
two_levels = record rented {
  tlas =
      (fun, fun_entry) ∷ (text "mid.fun", record fun_entry { expires_at = 3 * one_year_ns }) ∷ [];
  sub_accounts = (text "alice.mid.fun", alice_mid) ∷ [];
}

other_tla_reclaims_example :
    reclaim_finalize
      (env_of bob 0 (200 + one_year_ns + grace_period_ns))
      fun
      (sub_account_key middle name)
      two_levels
    ≡ ok (finalize_promise fun (sub_account_key middle name) alice two_levels.ft_allowlist)
unfolding get sub_account_key text_eq get_mother_use_count
other_tla_reclaims_example =
    other_tla_reclaims (env_of bob 0 (200 + one_year_ns + grace_period_ns)) fun middle name
      two_levels alice_mid fun_entry refl refl (ground arith) (omega arith) (omega arith) refl refl
      refl
