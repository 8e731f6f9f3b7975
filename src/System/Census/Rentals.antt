-- ===== src/System/Census/Rentals.antt =====
-- A rental keeps the tally of a TLA and raises the count of its own.
use hos_tla.Base.{
  ◌==◌, ℕ, ◌+◌, ◌≡◌, refl, arith, Text, none, some, if◌then◌else◌, eq_iff, ok, Option-cases,
  Result-cases, Bool-cases, inl, inr, add_u32, add_u64,
}
use hos_tla.Base.Maps.{get, insert, contains_key, get-insert}
use hos_tla.Base.Maps.Sums.{insert-IsMap, sum_by-insert}
use hos_tla.Types.{
  AccountId, PublicKey, TlaType, TlaEntry, SubAccountEntry, one_year_ns, is_business,
}
use hos_tla.Types.Names.{sub_account_key}
use hos_tla.Registry.{Env, Registry, Outcome}
use hos_tla.Mother.{ensure_mother_default}
use hos_tla.Rental.{rent_sub_account}
use hos_tla.Rental.Admission.{rental_admitted}
use hos_tla.Business.{business_count_check_and_bump, effective_business_cap}
use hos_tla.System.{Op, call}
use hos_tla.System.Census.{kind, under, names_of, count, Tally, IsCapped}
use hos_tla.System.Census.Kinds.{call-kind}

abbrev pub one_of : Text → Text → ℕ
one_of a b = if a == b then 1 else 0

-- The bump of the count of a TLA stays within 32 bits.
bumped :
    (b tla : AccountId) (s t : Registry)
    → IsCapped b s
    → business_count_check_and_bump tla s ≡ ok t
    → (count b t ≡ count b s + one_of tla b) × (t.sub_accounts ≡ s.sub_accounts) × (t.tlas ≡ s.tlas)
unfolding business_count_check_and_bump effective_business_cap
bumped b tla s t c h = elim (Option-cases (get b s.business_sub_cap_override)) [
  | inl e ↦ ground (
    arith,
    c.everyone,
    c.own,
    eq_iff tla b,
    get-insert tla b (add_u32 (count tla s) 1) s.business_sub_count,
  )
  | inr (n, e) ↦ ground (
    arith,
    c.everyone,
    c.own,
    eq_iff tla b,
    get-insert tla b (add_u32 (count tla s) 1) s.business_sub_count,
  )
]

bumped-IsCapped :
    (b tla : AccountId) (s t : Registry)
    → IsCapped b s
    → business_count_check_and_bump tla s ≡ ok t
    → IsCapped b t
unfolding business_count_check_and_bump
bumped-IsCapped b tla s t c h = ground (arith, c.everyone, c.own)

mother-IsCapped :
    (b user : AccountId) (s : Registry) → IsCapped b s → IsCapped b (ensure_mother_default user s)
unfolding ensure_mother_default
mother-IsCapped b user s c = ground (arith, c.everyone, c.own)

mother-names :
    (user : AccountId) (s : Registry)
    → ((ensure_mother_default user s).sub_accounts ≡ s.sub_accounts)
      × ((ensure_mother_default user s).business_sub_count ≡ s.business_sub_count)
unfolding ensure_mother_default
mother-names user s = ground arith

module _ (env : Env) (b tla : AccountId) (name : Text) (k : PublicKey) (w : AccountId)
    (s : Registry) (o : Outcome) (x : TlaEntry) (c : IsCapped b s) (found : get tla s.tlas ≡ some x)
    (h : rent_sub_account env tla name k w s ≡ ok o) where
  rent-count : count b o.state ≡ count b s + (if is_business x.tla_type then one_of tla b else 0)
  unfolding rent_sub_account
  rent-count =
      let s1 = ensure_mother_default env.predecessor s in
      let same = (mother-names env.predecessor s).1 in
      elim (Bool-cases (is_business x.tla_type)) [
        | inl y ↦ elim (Result-cases (business_count_check_and_bump tla s1)) [
          | inr (d, e) ↦ absurd (ground arith)
          | inl (s2, e) ↦
              ground (arith, same, (bumped b tla s1 s2 (mother-IsCapped b env.predecessor s c) e).0)
        ]
        | inr n ↦ ground (arith, same)
      ]

  rent-names :
      o.state.sub_accounts
      ≡ insert
          (sub_account_key tla name)
          (record {
            owner = env.predecessor;
            tla_id = tla;
            main_wallet = w;
            rented_at = env.block_timestamp;
            expires_at = add_u64 env.block_timestamp one_year_ns;
            retraction_at = none;
          })
          s.sub_accounts
  unfolding rent_sub_account
  rent-names =
      let s1 = ensure_mother_default env.predecessor s in
      let same = (mother-names env.predecessor s).0 in
      elim (Bool-cases (is_business x.tla_type)) [
        | inl y ↦ elim (Result-cases (business_count_check_and_bump tla s1)) [
          | inr (d, e) ↦ absurd (ground arith)
          | inl (s2, e) ↦
              ground (arith, same, (bumped b tla s1 s2 (mother-IsCapped b env.predecessor s c) e).1)
        ]
        | inr n ↦ ground (arith, same)
      ]

  pub rent-IsCapped : IsCapped b o.state
  unfolding rent_sub_account
  rent-IsCapped =
      let s1 = ensure_mother_default env.predecessor s in
      let c1 = mother-IsCapped b env.predecessor s c in
      elim (Bool-cases (is_business x.tla_type)) [
        | inl y ↦ elim (Result-cases (business_count_check_and_bump tla s1)) [
          | inr (d, e) ↦ absurd (ground arith)
          | inl (s2, e) ↦ ground (arith, c1.everyone, c1.own, bumped-IsCapped b tla s1 s2 c1 e)
        ]
        | inr n ↦ ground (arith, c1.everyone, c1.own)
      ]

  pub rent-Tally : Tally b s → Tally b o.state
  unfolding call contains_key
  rent-Tally y =
      let free = (rental_admitted env tla name k w s o h).free in
      let at = sub_account_key tla name in
      let new : SubAccountEntry = record {
        owner = env.predecessor;
        tla_id = tla;
        main_wallet = w;
        rented_at = env.block_timestamp;
        expires_at = add_u64 env.block_timestamp one_year_ns;
        retraction_at = none;
      } in
      let after = sum_by-insert (under b) at new s.sub_accounts in
      let more : names_of b o.state ≡ names_of b s + one_of tla b =
        ground (arith, after, rent-names, free) in
      let kept = λ (j : TlaType) (e : kind b s ≡ some j).
        call-kind env b (Op.rent_sub_account tla name k w) s o.state (some o.promise) j (rw h refl)
          e in
      elim (Option-cases (kind b s)) [
        | inl e ↦
            let other : one_of tla b ≡ 0 = ground (arith, eq_iff tla b, e, found) in
            record {
              is_map = rw rent-names (insert-IsMap at new s.sub_accounts y.is_map);
              none_yet = λ n. ground (arith, more, other, y.none_yet e);
              counted = ground (arith, more, other, y.none_yet e, y.counted, rent-count);
            }
        | inr (j, e) ↦ record {
          is_map = rw rent-names (insert-IsMap at new s.sub_accounts y.is_map);
          none_yet = λ n. absurd (ground (arith, kept j e));
          counted = ground (arith, more, y.counted, rent-count, kept j e, eq_iff tla b, found);
        }
      ]
