-- ===== src/Admin/Dormant.antt =====
-- A TLA that is suspended before it was ever activated.
use hos_tla.Base.{◌≤◌, ◌≡◌, ◌≢◌, Option, some, arith, ok}
use hos_tla.Base.Maps.{get, insert, contains_key, get-insert_self}
use hos_tla.Types.{
  AccountId, TlaEntry, TlaStatus, TlaType, PremiumCategory, LifecycleStatus, grace_period_ns,
}
use hos_tla.Types.Lifecycle.{tla_lifecycle}
use hos_tla.Registry.{Env, Registry}
use hos_tla.Admin.{register_tla, suspend_tla, unsuspend_tla, activate_open_tla}
use hos_tla.Rental.{activate_tla, renew_tla}

module _ (env : Env) (tla_id : AccountId) (entry : TlaEntry) (u v : Registry)
    (there : get tla_id u.tlas ≡ some (record entry { status = TlaStatus.active })) where
  no_activation : activate_tla env tla_id u ≢ ok v
  unfolding activate_tla
  no_activation h = ground arith

  no_open_activation : activate_open_tla env tla_id u ≢ ok v
  unfolding activate_open_tla
  no_open_activation h = ground arith

  no_renewal :
      entry.expires_at ≡ 0 → grace_period_ns ≤ env.block_timestamp → renew_tla env tla_id u ≢ ok v
  unfolding renew_tla
  no_renewal zero_term late h = ground arith

  no_registration :
      (tla_type : TlaType) (c : PremiumCategory) (licensee : Option AccountId)
      → register_tla env tla_id tla_type c licensee u ≢ ok v
  unfolding register_tla contains_key
  no_registration tla_type c licensee h = ground arith

-- The flaw: suspending and unsuspending a TLA that is only registered makes it active with a term
-- that ended at 0. From two weeks after that on it counts as reclaimable, and nobody can activate,
-- renew or register it any more.
pub unsuspended_is_lost :
    (admin env : Env) (tla_id : AccountId) (entry : TlaEntry) (s t u v : Registry)
    (tla_type : TlaType) (c : PremiumCategory) (licensee : Option AccountId)
    → get tla_id s.tlas ≡ some entry
    → entry.expires_at ≡ 0
    → suspend_tla admin tla_id s ≡ ok t
    → unsuspend_tla admin tla_id t ≡ ok u
    → grace_period_ns ≤ env.block_timestamp
    → (get tla_id u.tlas ≡ some (record entry { status = TlaStatus.active }))
      × (tla_lifecycle env.block_timestamp (record entry { status = TlaStatus.active })
          ≡ LifecycleStatus.reclaimable)
      × (activate_tla env tla_id u ≢ ok v)
      × (activate_open_tla env tla_id u ≢ ok v)
      × (renew_tla env tla_id u ≢ ok v)
      × (register_tla env tla_id tla_type c licensee u ≢ ok v)
unfolding suspend_tla unsuspend_tla tla_lifecycle
unsuspended_is_lost admin env tla_id entry s t u v tla_type c licensee e zero_term h k late =
    let m1 = insert tla_id (record entry { status = TlaStatus.suspended }) s.tlas in
    let there : get tla_id u.tlas ≡ some (record entry { status = TlaStatus.active }) = ground (
      arith,
      get-insert_self tla_id (record entry { status = TlaStatus.suspended }) s.tlas,
      get-insert_self tla_id (record entry { status = TlaStatus.active }) m1,
    ) in
    (
      there,
      ground arith,
      no_activation env tla_id entry u v there,
      no_open_activation env tla_id entry u v there,
      no_renewal env tla_id entry u v there zero_term late,
      no_registration env tla_id entry u v there tla_type c licensee,
    )
