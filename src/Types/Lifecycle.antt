-- ===== src/Types/Lifecycle.antt =====
-- The life cycles of TLAs and sub-accounts (types.rs), and the effective one of a sub-account
-- under its TLA (`effective_sub_lifecycle` of mother.rs). `now` is `env::block_timestamp()`.
pub mod Cascade
use hos_tla.Base.{ℕ, Bool, true, false, ◌&&◌, Option, none, some, ltb, leb, if◌then◌else◌, add_u64}
use hos_tla.Types.{
  TlaEntry, TlaStatus, SubAccountEntry, LifecycleStatus, is_active, is_reclaimable, grace_period_ns,
}

-- The part that `TlaEntry::lifecycle` and `SubAccountEntry::lifecycle` share in text.
abbrev phase : ℕ → ℕ → LifecycleStatus
phase now expires_at =
    let grace_end = add_u64 expires_at grace_period_ns in
    if ltb now expires_at
    then LifecycleStatus.active
    else if ltb now grace_end
    then LifecycleStatus.grace
    else LifecycleStatus.reclaimable

abbrev status_lifecycle : ℕ → ℕ → TlaStatus → LifecycleStatus
status_lifecycle now expires_at TlaStatus.registered = LifecycleStatus.registered
status_lifecycle now expires_at TlaStatus.suspended = LifecycleStatus.suspended
status_lifecycle now expires_at TlaStatus.active = phase now expires_at

-- `TlaEntry::lifecycle`
unfoldable pub tla_lifecycle : ℕ → TlaEntry → LifecycleStatus
tla_lifecycle now e = status_lifecycle now e.expires_at e.status

-- `TlaEntry::is_accepting_rentals`
unfoldable pub is_accepting_rentals : ℕ → TlaEntry → Bool
is_accepting_rentals now e = is_active e.status && ltb now e.expires_at

-- `SubAccountEntry::lifecycle`
unfoldable pub sub_lifecycle : ℕ → SubAccountEntry → LifecycleStatus
sub_lifecycle now e = phase now e.expires_at

abbrev retraction_elapsed : ℕ → ℕ → Option ℕ → Bool
retraction_elapsed now notice none = false
retraction_elapsed now notice (some at) = leb (add_u64 at notice) now

unfoldable pub effective_sub_lifecycle : ℕ → SubAccountEntry → TlaEntry → ℕ → LifecycleStatus
unfolding tla_lifecycle sub_lifecycle
effective_sub_lifecycle now sub tla notice =
    if is_reclaimable (tla_lifecycle now tla)
    then LifecycleStatus.reclaimable
    else if retraction_elapsed now notice sub.retraction_at
    then LifecycleStatus.reclaimable
    else sub_lifecycle now sub
