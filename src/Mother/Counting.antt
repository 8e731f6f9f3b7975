-- ===== src/Mother/Counting.antt =====
-- How the use counts follow the mothers, and where they do not.
use hos_tla.Base.{
  ◌==◌, ◌-◌, ◌≡◌, ◌≢◌, true, false, some, arith, add_u32, unwrap_or, ok, if◌then◌else◌, eq_iff,
  eq_refl,
}
use hos_tla.Base.Maps.{get, insert, remove, contains_key, get-insert, get-remove, get-insert_self}
use hos_tla.Types.{AccountId}
use hos_tla.Registry.{Env, Registry}
use hos_tla.Mother.{
  set_mother, get_mother, get_mother_use_count, is_mother, increment_mother_use,
  decrement_mother_use,
}

-- One use more, at that account alone.
pub increment_counts :
    (a b : AccountId) (s : Registry)
    → get_mother_use_count b (increment_mother_use a s)
      ≡ (if a == b then add_u32 (get_mother_use_count b s) 1 else get_mother_use_count b s)
unfolding increment_mother_use get_mother_use_count
increment_counts a b s = ground (
  arith,
  eq_iff a b,
  get-insert a b (add_u32 (unwrap_or 0 (get a s.mother_use_count)) 1) s.mother_use_count,
)

-- Giving up a use counts one less at that account alone, and never below none.
pub decrement_counts :
    (a b : AccountId) (s : Registry)
    → get_mother_use_count b (decrement_mother_use a s)
      ≡ (if a == b then get_mother_use_count b s - 1 else get_mother_use_count b s)
unfolding decrement_mother_use get_mother_use_count
decrement_counts a b s =
    let next = unwrap_or 0 (get a s.mother_use_count) - 1 in
    ground
      (arith, eq_iff a b, get-insert a b next s.mother_use_count, get-remove a b s.mother_use_count)

-- A user who has a mother and names another one gets it; if the named account is managed, it
-- counts as a mother from then on, and otherwise it counts as before.
pub named_mother_counts :
    (env : Env) (mother old : AccountId) (s t : Registry)
    → set_mother env mother s ≡ ok t
    → get env.predecessor s.mothers ≡ some old
    → old ≢ mother
    → (get_mother env.predecessor t ≡ some mother)
      × (is_mother mother t
          ≡ (if contains_key mother s.sub_accounts then true else is_mother mother s))
unfolding set_mother get_mother is_mother
named_mother_counts env mother old s t h e apart =
    let user = env.predecessor in
    let m = s.mother_use_count in
    let next = unwrap_or 0 (get old m) - 1 in
    let m1 = remove old m in
    let m2 = insert old next m in
    (
      ground (arith, eq_iff old mother, get-insert_self user mother s.mothers),
      ground (
        arith,
        eq_iff old mother,
        get-insert old mother next m,
        get-remove old mother m,
        get-insert_self mother (add_u32 (unwrap_or 0 (get mother m1)) 1) m1,
        get-insert_self mother (add_u32 (unwrap_or 0 (get mother m2)) 1) m2,
      ),
    )

-- The flaw: naming another mother gives up a use even if it was never counted. If two users have
-- the same account as their mother and only one use of it is counted, a change by either of them
-- takes that use away, and the account counts as nobody's mother although it still is the other
-- user's.
pub uncounted_use_given_up :
    (env : Env) (other mother next : AccountId) (s t : Registry)
    → get env.predecessor s.mothers ≡ some mother
    → get other s.mothers ≡ some mother
    → other ≢ env.predecessor
    → next ≢ mother
    → get_mother_use_count mother s ≡ 1
    → set_mother env next s ≡ ok t
    → (get_mother other t ≡ some mother) × (is_mother mother t ≡ false)
unfolding set_mother get_mother is_mother get_mother_use_count
uncounted_use_given_up env other mother next s t e f apart new one h =
    let user = env.predecessor in
    let m = s.mother_use_count in
    let m1 = remove mother m in
    (
      ground (arith, eq_iff mother next, eq_iff user other, get-insert user other next s.mothers),
      ground (
        arith,
        eq_iff mother next,
        eq_iff next mother,
        get-remove mother mother m,
        eq_refl mother,
        get-insert next mother (add_u32 (unwrap_or 0 (get next m1)) 1) m1,
      ),
    )
