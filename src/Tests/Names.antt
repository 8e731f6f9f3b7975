-- ===== src/Tests/Names.antt =====
-- Witnesses for the terms, the names and the fees.
use hos_tla.Base.{ℕ, ◌+◌, ◌≡◌, inr, refl, arith}
use hos_tla.Types.{LifecycleStatus, one_year_ns, grace_period_ns}
use hos_tla.Types.Lifecycle.{effective_sub_lifecycle}
use hos_tla.Types.Lifecycle.Cascade.{reclaimable_iff}
use hos_tla.Types.Names.{
  validate_name, all_name_bytes, is_name_byte, starts_with_separator, ends_with_separator,
}
use hos_tla.Types.Names.Accepted.{IsName, accepted_iff}
use hos_tla.Tests.Scenario.{name, alice_entry, fun_entry}

abbrev much_later : ℕ
much_later = 300 + one_year_ns + grace_period_ns

reclaimable_iff_example :
    effective_sub_lifecycle much_later alice_entry fun_entry 0 ≡ LifecycleStatus.reclaimable
reclaimable_iff_example =
    (reclaimable_iff much_later 0 alice_entry fun_entry (omega arith) (omega arith)).1
      (inr (inr (omega arith)))

accepted_iff_example : IsName name
unfolding validate_name all_name_bytes is_name_byte starts_with_separator ends_with_separator
accepted_iff_example = (accepted_iff name).0 refl
