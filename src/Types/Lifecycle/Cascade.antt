-- ===== src/Types/Lifecycle/Cascade.antt =====
-- When a sub-account can be reclaimed or sold, by its own term, its TLA's and its retraction.
use hos_tla.Base.{ℕ, ◌≤◌, ◌<◌, ◌≡◌, ◌↔◌, ◌⊎◌, inl, inr, some, arith, add_u64, u64_max}
use hos_tla.Types.{TlaEntry, TlaStatus, SubAccountEntry, LifecycleStatus, grace_period_ns}
use hos_tla.Types.Lifecycle.{effective_sub_lifecycle}

-- The term of an active TLA and its grace period are over.
abbrev pub TlaLapsed : ℕ → TlaEntry → Type 0
TlaLapsed now tla = (tla.status ≡ TlaStatus.active) × (add_u64 tla.expires_at grace_period_ns ≤ now)

-- A retraction was scheduled and its notice has run out.
abbrev pub Retracted : ℕ → ℕ → SubAccountEntry → Type 0
Retracted now notice sub = (at : ℕ) × (sub.retraction_at ≡ some at) × (add_u64 at notice ≤ now)

-- The sub-account's own term and its grace period are over.
abbrev pub SubLapsed : ℕ → SubAccountEntry → Type 0
SubLapsed now sub = add_u64 sub.expires_at grace_period_ns ≤ now

module _ (now notice : ℕ) (sub : SubAccountEntry) (tla : TlaEntry)
    (sub_u64 : sub.expires_at ≤ u64_max) (tla_u64 : tla.expires_at ≤ u64_max) where
  reclaimable_why :
      effective_sub_lifecycle now sub tla notice ≡ LifecycleStatus.reclaimable
      → TlaLapsed now tla ⊎ Retracted now notice sub ⊎ SubLapsed now sub
  unfolding effective_sub_lifecycle
  reclaimable_why h = ground arith

  tla_cascades :
      TlaLapsed now tla → effective_sub_lifecycle now sub tla notice ≡ LifecycleStatus.reclaimable
  unfolding effective_sub_lifecycle
  tla_cascades h = ground arith

  retraction_reclaims :
      Retracted now notice sub
      → effective_sub_lifecycle now sub tla notice ≡ LifecycleStatus.reclaimable
  unfolding effective_sub_lifecycle
  retraction_reclaims h = ground arith

  lapse_reclaims :
      SubLapsed now sub → effective_sub_lifecycle now sub tla notice ≡ LifecycleStatus.reclaimable
  unfolding effective_sub_lifecycle
  lapse_reclaims h = ground arith

  -- With terms that fit `u64`, a sub-account is effectively reclaimable exactly when its active
  -- TLA is past its grace period, or its retraction notice has run out, or it is past its own
  -- grace period.
  pub reclaimable_iff :
      (effective_sub_lifecycle now sub tla notice ≡ LifecycleStatus.reclaimable)
      ↔ (TlaLapsed now tla ⊎ Retracted now notice sub ⊎ SubLapsed now sub)
  reclaimable_iff = (
    reclaimable_why,
    λ h. elim h [
      | inl t ↦ tla_cascades t
      | inr (inl r) ↦ retraction_reclaims r
      | inr (inr s) ↦ lapse_reclaims s
    ],
  )

  -- The effective life cycle is active only within the sub-account's own term, while no
  -- retraction notice has run out and the TLA is not past its grace period.
  pub active_why :
      effective_sub_lifecycle now sub tla notice ≡ LifecycleStatus.active
      → (now < sub.expires_at) × (¬ Retracted now notice sub) × (¬ TlaLapsed now tla)
  unfolding effective_sub_lifecycle
  active_why h = (ground arith, λ r. cc (h, retraction_reclaims r), λ t. cc (h, tla_cascades t))

-- What can be reclaimed now can be reclaimed later, as long as no call changes the entries.
pub reclaimable_stays :
    (now later notice : ℕ) (sub : SubAccountEntry) (tla : TlaEntry)
    → sub.expires_at ≤ u64_max
    → tla.expires_at ≤ u64_max
    → now ≤ later
    → effective_sub_lifecycle now sub tla notice ≡ LifecycleStatus.reclaimable
    → effective_sub_lifecycle later sub tla notice ≡ LifecycleStatus.reclaimable
reclaimable_stays now later notice sub tla us ut le h =
    elim ((reclaimable_iff now notice sub tla us ut).0 h) [
      | inl (a, t) ↦ tla_cascades later notice sub tla us ut (a, omega arith)
      | inr (inl (at, e, r)) ↦ retraction_reclaims later notice sub tla us ut (at, e, omega arith)
      | inr (inr s) ↦ lapse_reclaims later notice sub tla us ut (omega arith)
    ]
