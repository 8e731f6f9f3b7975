-- ===== src/Tests/Governance.antt =====
-- Witnesses for the gates, the money of single calls, the gas and the dormant TLA.
use hos_tla.Base.{◌*◌, ◌≡◌, ◌≢◌, refl, false, none, some, [], ◌∷◌, arith, text_eq, ok, err}
use hos_tla.Base.Maps.{get, insert}
use hos_tla.Base.Sets.{contains}
use hos_tla.Types.{
  TlaType, TlaStatus, TlaEntry, PremiumCategory, LifecycleStatus, grace_period_ns, one_near,
}
use hos_tla.Types.Lifecycle.{tla_lifecycle, effective_sub_lifecycle}
use hos_tla.Types.Names.{sub_account_key}
use hos_tla.Registry.{ContractError, Registry, new}
use hos_tla.Admin.{register_tla, suspend_tla, unsuspend_tla, activate_open_tla}
use hos_tla.Admin.Dormant.{unsuspended_is_lost}
use hos_tla.Rental.{activate_tla, renew_tla}
use hos_tla.System.{Op, call, Answer}
use hos_tla.System.Gates.{admin_gate, pause_gate}
use hos_tla.Tests.Scenario.{hos, alice, fun, name, env_of, state_of, promise_of, rented}
use hos_tla.Tests.Market.{registry_of}

admin_gate_example : call (env_of alice 0 300) Op.pause rented ≡ err ContractError.only_admin
unfolding contains text_eq
admin_gate_example = admin_gate (env_of alice 0 300) Op.pause rented refl refl

abbrev listing : Op
listing = Op.list_sub_account fun name one_near

abbrev listed_answer : Answer
listed_answer = call (env_of alice 1 300) listing rented

pause_gate_example : rented.paused ≡ false
unfolding call contains get insert text_eq sub_account_key effective_sub_lifecycle
pause_gate_example =
    pause_gate (env_of alice 1 300) listing rented (state_of rented listed_answer)
      (promise_of listed_answer) refl refl

-- A TLA that is registered, and no more.
abbrev dormant_entry : TlaEntry
dormant_entry = record {
  tla_type = TlaType.open_tla;
  status = TlaStatus.registered;
  licensee = none;
  premium_category = PremiumCategory.standard;
  activated_at = 0;
  expires_at = 0;
}

abbrev dormant : Registry
dormant = record (new hos) { tlas = (fun, dormant_entry) ∷ [] }

abbrev suspended : Registry
suspended = registry_of dormant (suspend_tla (env_of hos 0 0) fun dormant)

abbrev unsuspended : Registry
unsuspended = registry_of suspended (unsuspend_tla (env_of hos 0 0) fun suspended)

unsuspended_is_lost_example :
    (get fun unsuspended.tlas ≡ some (record dormant_entry { status = TlaStatus.active }))
    × (tla_lifecycle (2 * grace_period_ns) (record dormant_entry { status = TlaStatus.active })
        ≡ LifecycleStatus.reclaimable)
    × (activate_tla (env_of hos 0 (2 * grace_period_ns)) fun unsuspended ≢ ok rented)
    × (activate_open_tla (env_of hos 0 (2 * grace_period_ns)) fun unsuspended ≢ ok rented)
    × (renew_tla (env_of hos 0 (2 * grace_period_ns)) fun unsuspended ≢ ok rented)
    × (register_tla
          (env_of hos 0 (2 * grace_period_ns))
          fun
          TlaType.open_tla
          PremiumCategory.standard
          none
          unsuspended
        ≢ ok rented)
unfolding suspend_tla unsuspend_tla get insert text_eq contains
unsuspended_is_lost_example =
    unsuspended_is_lost (env_of hos 0 0) (env_of hos 0 (2 * grace_period_ns)) fun dormant_entry
      dormant suspended unsuspended rented TlaType.open_tla PremiumCategory.standard none refl refl
      refl refl (omega arith)
