-- ===== src/Tests/Removals.antt =====
-- Witnesses for reclaims and exports: `alice.fun` long after its term.
use hos_tla.Base.{
  ℕ, ◌+◌, ◌≡◌, ◌≢◌, ◌⊎◌, inl, inr, refl, false, some, List, [], ◌∷◌, arith, text_eq, ok,
}
use hos_tla.Base.Maps.{get}
use hos_tla.Types.{one_year_ns, grace_period_ns, AccountId}
use hos_tla.Types.Lifecycle.{effective_sub_lifecycle}
use hos_tla.Types.Lifecycle.Cascade.{TlaLapsed, Retracted, SubLapsed}
use hos_tla.Types.Names.{
  sub_account_key, validate_name, all_name_bytes, is_name_byte, starts_with_separator,
  ends_with_separator,
}
use hos_tla.Registry.{Promise, PromiseResult}
use hos_tla.Mother.{get_mother_use_count}
use hos_tla.Reclaim.{
  reclaim_finalize, reclaim_sweep_ft, reclaim_destination, delete_promise, finalize_promise,
  on_balances_checked,
}
use hos_tla.Reclaim.Admission.{IsReclaimable, finalize_iff, no_early_reclaim}
use hos_tla.Reclaim.Emptiness.{deleted_iff_empty}
use hos_tla.Tests.Scenario.{hos, alice, bob, fun, name, env_of, rented, alice_entry, fun_entry}
use hos_tla.Tests.Market.{listed}

abbrev late : ℕ
late = 300 + one_year_ns + grace_period_ns

abbrev pub promised : Promise
promised = delete_promise fun name alice

finalize_iff_example :
    (rented.paused ≡ false)
    × ((d : AccountId) × IsReclaimable (env_of bob 0 late) fun name d rented
        × (promised ≡ finalize_promise fun name d rented.ft_allowlist))
unfolding reclaim_finalize reclaim_destination get text_eq sub_account_key effective_sub_lifecycle
    get_mother_use_count
finalize_iff_example = (finalize_iff (env_of bob 0 late) fun name rented promised refl).0 refl

in_term : ¬ (
    TlaLapsed 300 fun_entry
    ⊎ Retracted 300 rented.fee_config.retraction_notice_ns alice_entry
    ⊎ SubLapsed 300 alice_entry)
in_term (inl (_, h)) = absurd (omega arith)
in_term (inr (inl (at, e, _))) = absurd cc
in_term (inr (inr h)) = absurd (omega arith)

no_early_reclaim_example :
    (reclaim_finalize (env_of bob 0 300) fun name rented ≢ ok promised)
    × (reclaim_sweep_ft (env_of bob 0 300) fun name hos rented ≢ ok promised)
unfolding get text_eq sub_account_key validate_name all_name_bytes is_name_byte
    starts_with_separator ends_with_separator
no_early_reclaim_example =
    no_early_reclaim (env_of bob 0 300) fun name hos rented alice_entry fun_entry promised fun name
      refl refl refl refl refl (omega arith) (omega arith) in_term

abbrev zero_answer : List PromiseResult
zero_answer = PromiseResult.returned (0 ∷ []) ∷ []

deleted_iff_empty_example :
    on_balances_checked (env_of hos 0 late) zero_answer fun name alice listed.ft_allowlist listed
    ≡ ok (listed, some promised)
deleted_iff_empty_example =
    (deleted_iff_empty (env_of hos 0 late) zero_answer fun name alice listed.ft_allowlist listed
        refl (omega arith)).1
      (refl, tt)
