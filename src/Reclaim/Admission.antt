-- ===== src/Reclaim/Admission.antt =====
-- When an account can be swept and deleted.
use hos_tla.Base.{
  ◌≤◌, ◌≡◌, ◌≢◌, ◌↔◌, ◌⊎◌, inl, inr, true, false, some, arith, Text, ok, Option-cases, Result-cases,
  u64_max,
}
use hos_tla.Base.Maps.{get}
use hos_tla.Types.{AccountId, TlaEntry, SubAccountEntry, LifecycleStatus}
use hos_tla.Types.Lifecycle.{effective_sub_lifecycle}
use hos_tla.Types.Lifecycle.Cascade.{TlaLapsed, Retracted, SubLapsed, reclaimable_iff}
use hos_tla.Types.Names.{sub_account_key, validate_name}
use hos_tla.Types.Names.Keys.{no_dot, one_reading, valid-all_name_bytes}
use hos_tla.Mother.{get_mother_use_count}
use hos_tla.Registry.{Env, Registry, Promise}
use hos_tla.Reclaim.{reclaim_destination, reclaim_sweep_ft, reclaim_finalize, finalize_promise}

-- The account is managed and nobody's mother; its term, its TLA's or its retraction has run out;
-- and its main wallet is the destination.
pub record IsReclaimable (env : Env) (tla_id : AccountId) (name : Text) (destination : AccountId)
    (s : Registry) : Type 0 where
  pub valid_id : env.is_account_id (sub_account_key tla_id name) ≡ true
  pub no_mother : get_mother_use_count (sub_account_key tla_id name) s ≡ 0
  pub sub : SubAccountEntry
  pub found : get (sub_account_key tla_id name) s.sub_accounts ≡ some sub
  pub tla : TlaEntry
  pub tla_found : get tla_id s.tlas ≡ some tla
  pub run_out :
      effective_sub_lifecycle env.block_timestamp sub tla s.fee_config.retraction_notice_ns
      ≡ LifecycleStatus.reclaimable
  pub to_main_wallet : sub.main_wallet ≡ destination

module _ (env : Env) (tla_id : AccountId) (name : Text) (destination : AccountId)
    (s : Registry) where
  IsReclaimable-why :
      reclaim_destination env tla_id name s ≡ ok destination
      → IsReclaimable env tla_id name destination s
  unfolding reclaim_destination get_mother_use_count
  IsReclaimable-why h = elim (Option-cases (get (sub_account_key tla_id name) s.sub_accounts)) [
    | inl e ↦ ground arith
    | inr (sub, e) ↦ elim (Option-cases (get tla_id s.tlas)) [
      | inl f ↦ ground arith
      | inr (tla, f) ↦ record {
        valid_id = ground arith;
        no_mother = ground arith;
        sub = sub;
        found = e;
        tla = tla;
        tla_found = f;
        run_out = ground arith;
        to_main_wallet = ground arith;
      }
    ]
  ]

  IsReclaimable-if :
      IsReclaimable env tla_id name destination s
      → reclaim_destination env tla_id name s ≡ ok destination
  unfolding reclaim_destination get_mother_use_count
  IsReclaimable-if k =
      ground (arith, k.found, k.tla_found, k.valid_id, k.no_mother, k.run_out, k.to_main_wallet)

pub finalize_admitted :
    (env : Env) (tla_id : AccountId) (name : Text) (s : Registry) (p : Promise)
    → (reclaim_finalize env tla_id name s ≡ ok p) ↔ (
        (s.paused ≡ false)
        × ((d : AccountId) × IsReclaimable env tla_id name d s
            × (p ≡ finalize_promise tla_id name d s.ft_allowlist)))
unfolding reclaim_finalize
finalize_admitted env tla_id name s p = (
  λ h. (
    ground arith,
    elim (Result-cases (reclaim_destination env tla_id name s)) [
      | inl (d, e) ↦ (d, IsReclaimable-why env tla_id name d s e, ground arith)
      | inr (c, e) ↦ absurd (ground arith)
    ],
  ),
  λ (running, (d, k, e)). ground (arith, IsReclaimable-if env tla_id name d s k),
)

-- Without a deposit, anyone can have an account deleted, while the contract runs, exactly when it
-- can be reclaimed. The promise is then the one of `finalize_promise` for the allowlist, to the
-- account's main wallet.
pub finalize_iff :
    (env : Env) (tla_id : AccountId) (name : Text) (s : Registry) (p : Promise)
    → env.attached_deposit ≡ 0
    → (reclaim_finalize env tla_id name s ≡ ok p) ↔ (
        (s.paused ≡ false)
        × ((d : AccountId) × IsReclaimable env tla_id name d s
            × (p ≡ finalize_promise tla_id name d s.ft_allowlist)))
finalize_iff env tla_id name s p no_deposit = finalize_admitted env tla_id name s p

no_early_request :
    (env : Env) (tla_id : AccountId) (name : Text) (ft : AccountId) (s : Registry)
    (sub : SubAccountEntry) (tla : TlaEntry) (p : Promise)
    → get (sub_account_key tla_id name) s.sub_accounts ≡ some sub
    → get tla_id s.tlas ≡ some tla
    → sub.expires_at ≤ u64_max
    → tla.expires_at ≤ u64_max
    → ¬ (
        TlaLapsed env.block_timestamp tla
        ⊎ Retracted env.block_timestamp s.fee_config.retraction_notice_ns sub
        ⊎ SubLapsed env.block_timestamp sub)
    → (reclaim_finalize env tla_id name s ≢ ok p) × (reclaim_sweep_ft env tla_id name ft s ≢ ok p)
unfolding reclaim_finalize reclaim_sweep_ft
no_early_request env tla_id name ft s sub tla p e f us ut still =
    let not_yet =
      λ (h : effective_sub_lifecycle env.block_timestamp sub tla s.fee_config.retraction_notice_ns
          ≡ LifecycleStatus.reclaimable).
        still (
          (reclaimable_iff env.block_timestamp s.fee_config.retraction_notice_ns sub tla us ut).0
            h) in
    (λ h. not_yet (ground arith), λ h. not_yet (ground arith))

-- With terms that fit `u64`, a valid name and a TLA whose id has no dot: as long as the sub-account
-- is within its own term and grace, no retraction notice has run out and its active TLA is not past
-- its grace, nobody can ask for it to be swept or deleted, whatever TLA and name the request gives.
pub no_early_reclaim :
    (env : Env) (tla_id : AccountId) (name : Text) (ft : AccountId) (s : Registry)
    (sub : SubAccountEntry) (tla : TlaEntry) (p : Promise) (other : AccountId) (asked : Text)
    → validate_name name ≡ ok tt
    → no_dot tla_id ≡ true
    → sub_account_key other asked ≡ sub_account_key tla_id name
    → get (sub_account_key tla_id name) s.sub_accounts ≡ some sub
    → get tla_id s.tlas ≡ some tla
    → sub.expires_at ≤ u64_max
    → tla.expires_at ≤ u64_max
    → ¬ (
        TlaLapsed env.block_timestamp tla
        ⊎ Retracted env.block_timestamp s.fee_config.retraction_notice_ns sub
        ⊎ SubLapsed env.block_timestamp sub)
    → (reclaim_finalize env other asked s ≢ ok p) × (reclaim_sweep_ft env other asked ft s ≢ ok p)
no_early_reclaim env tla_id name ft s sub tla p other asked valid plain same e f us ut still =
    let same_tla =
      one_reading other tla_id asked name (valid-all_name_bytes name valid) plain same in
    no_early_request env other asked ft s sub tla p (rw same e) (rw same_tla f) us ut still
