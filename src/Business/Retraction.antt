-- ===== src/Business/Retraction.antt =====
-- A retraction that is scheduled and taken back.
use hos_tla.Base.{
  ◌+◌, ◌<◌, ◌≡◌, none, some, arith, Text, eq_iff, u64_max, ok, Option-cases, inl, inr,
}
use hos_tla.Base.Maps.{Map, get, insert, get-insert, get-insert_self}
use hos_tla.Types.{AccountId}
use hos_tla.Types.Names.{sub_account_key}
use hos_tla.Registry.{Env, Registry, Event, emit}
use hos_tla.Business.{schedule_retraction, cancel_retraction}

-- The same account as `s` has, but for what is logged.
pub record SameTerms (s t : Registry) : Type 0 where
  pub entries : (key : Text) → get key t.sub_accounts ≡ get key s.sub_accounts
  pub tlas : t.tlas ≡ s.tlas
  pub listings : t.listings ≡ s.listings
  pub offers : t.accepted_offers ≡ s.accepted_offers
  pub refunds : t.pending_refunds ≡ s.pending_refunds
  pub revenue : t.total_revenue ≡ s.total_revenue

insert_twice {ℓ} :
    {V : Type ℓ} (at key : Text) (old new : V) (m : Map V)
    → get at m ≡ some old
    → get key (insert at old (insert at new m)) ≡ get key m
insert_twice at key old new m e =
    ground (arith, eq_iff at key, get-insert at key old (insert at new m), get-insert at key new m)

-- An owner who has scheduled a retraction can take it back until its notice has run out, and then
-- every entry, listing, offer and refund is as it was before.
pub retraction_taken_back :
    (env later : Env) (tla_id : AccountId) (name : Text) (s u : Registry)
    → schedule_retraction env tla_id name s ≡ ok u
    → later.predecessor ≡ env.predecessor
    → later.attached_deposit ≡ 1
    → later.block_timestamp < env.block_timestamp + s.fee_config.retraction_notice_ns
    → later.block_timestamp < u64_max
    → (v : Registry) × (cancel_retraction later tla_id name u ≡ ok v) × SameTerms s v
unfolding schedule_retraction cancel_retraction
retraction_taken_back env later tla_id name s u h who yocto in_time late_range =
    let key = sub_account_key tla_id name in
    elim (Option-cases (get key s.sub_accounts)) [
      | inl e ↦ absurd (ground arith)
      | inr (sub, e) ↦
          let pending = record sub { retraction_at = some env.block_timestamp } in
          let after = get-insert_self key pending s.sub_accounts in
          let pend : (u.sub_accounts ≡ insert key pending s.sub_accounts)
              × (sub.retraction_at ≡ none) =
            ground (arith, e, eq_iff env.predecessor sub.owner) in
          let v =
            emit (Event.sub_account_retraction_canceled key later.predecessor)
              (record u { sub_accounts = insert key sub u.sub_accounts }) in
          (
            v,
            ground (
              arith,
              after,
              pend,
              e,
              eq_iff later.predecessor sub.owner,
              eq_iff env.predecessor sub.owner,
            ),
            record {
              entries = λ k. ground (arith, insert_twice key k sub pending s.sub_accounts e);
              tlas = ground arith;
              listings = ground arith;
              offers = ground arith;
              refunds = ground arith;
              revenue = ground arith;
            },
          )
    ]
