-- ===== src/Reclaim/Readings.antt =====
-- A key that can be read as a name under either of two TLAs.
use hos_tla.Base.{◌≤◌, ◌≡◌, inl, refl, true, false, some, ◌∷◌, Text, ok, u64_max}
use mathlib.Core.List.{append_assoc}
use hos_tla.Base.Maps.{get}
use hos_tla.Types.{SubAccountEntry, TlaEntry}
use hos_tla.Types.Lifecycle.Cascade.{TlaLapsed, reclaimable_iff}
use hos_tla.Types.Names.{sub_account_key}
use hos_tla.Registry.{Env, Registry}
use hos_tla.Mother.{get_mother_use_count}
use hos_tla.Reclaim.{reclaim_finalize, finalize_promise}
use hos_tla.Reclaim.Admission.{finalize_admitted}

-- `name.middle` under `top`, and `name` under `middle.top`.
pub two_readings :
    (top middle name : Text)
    → sub_account_key top (sub_account_key middle name)
      ≡ sub_account_key (sub_account_key top middle) name
unfolding sub_account_key
two_readings top middle name = append_assoc name (b'.' ∷ middle) (b'.' ∷ top)

module _ (env : Env) (top middle name : Text) (s : Registry) (sub : SubAccountEntry)
    (other : TlaEntry) where
  -- The flaw: the reclaim of a name does not compare the TLA that it is asked for with the one of
  -- the entry. If the id of a TLA is `middle.top`, and `top` is a TLA as well whose term and grace
  -- period have run out, anyone can have an account below `middle.top` deleted, however long its
  -- own term and the one of `middle.top` still run.
  pub other_tla_reclaims :
      get (sub_account_key (sub_account_key top middle) name) s.sub_accounts ≡ some sub
      → get top s.tlas ≡ some other
      → TlaLapsed env.block_timestamp other
      → sub.expires_at ≤ u64_max
      → other.expires_at ≤ u64_max
      → env.is_account_id (sub_account_key (sub_account_key top middle) name) ≡ true
      → get_mother_use_count (sub_account_key (sub_account_key top middle) name) s ≡ 0
      → s.paused ≡ false
      → reclaim_finalize env top (sub_account_key middle name) s
        ≡ ok (finalize_promise top (sub_account_key middle name) sub.main_wallet s.ft_allowlist)
  other_tla_reclaims found there lapsed us uo valid free running =
      let same = two_readings top middle name in
      (finalize_admitted env top (sub_account_key middle name) s
          (finalize_promise top (sub_account_key middle name) sub.main_wallet s.ft_allowlist)).1
        (
          running,
          (
            sub.main_wallet,
            (record {
              valid_id = rw same valid;
              no_mother = rw same free;
              sub = sub;
              found = rw same found;
              tla = other;
              tla_found = there;
              run_out =
                  (reclaimable_iff env.block_timestamp s.fee_config.retraction_notice_ns sub other
                      us uo).1
                    (inl lapsed);
              to_main_wallet = refl;
            }),
            refl,
          ),
        )
