-- ===== src/ResaleLocker/OneShot.antt =====
-- The key of a sold account: at most one is ever added, the buyer's or the recovery key.
use hos_tla.Base.{
  ◌≡◌, ◌↔◌, ◌⊎◌, inl, inr, refl, sym, ap, ◌∙◌, Bool, true, false, List, [], ◌∷◌, ◌++◌, arith,
  eq_iff, ok,
}
use hos_tla.Types.{AccountId, PublicKey}
use hos_tla.ResaleLocker.{
  LockState, ResaleLocker, Request, new, unlock, abort, on_settle_resolved, assert_registry,
  assert_active,
}

-- The account with its locker: the keys that were added, those that are still to be added, and how
-- the additions ended whose callback is still to run.
pub record Account : Type 0 where
  pub locker : ResaleLocker
  pub keys : List PublicKey
  pub adding : List PublicKey
  pub ended : List Bool

abbrev pub start : AccountId → PublicKey → Account
start registry recovery_key = record {
  locker = new registry recovery_key;
  keys = [];
  adding = [];
  ended = [];
}

-- Anyone calls a method, the network adds a key or fails to, and the callback runs after that. `k`
-- is the recovery key, or a key that the registry named.
pub data Step : Account → Account → Type 0 where
  unlocked :
      (a : Account) (caller : AccountId) (buyer_key k : PublicKey) (l : ResaleLocker)
      → unlock caller buyer_key a.locker ≡ ok (l, Request.add_full_access_key k)
      → Step a (record a { locker = l; adding = k ∷ a.adding })
  aborted :
      (a : Account) (caller : AccountId) (k : PublicKey) (l : ResaleLocker)
      → abort caller a.locker ≡ ok (l, Request.add_full_access_key k)
      → Step a (record a { locker = l; adding = k ∷ a.adding })
  added :
      (a : Account) (before : List PublicKey) (k : PublicKey) (after : List PublicKey)
      → a.adding ≡ before ++ k ∷ after
      → Step a (record {
        locker = a.locker;
        keys = k ∷ a.keys;
        adding = before ++ after;
        ended = true ∷ a.ended;
      })
  not_added :
      (a : Account) (before : List PublicKey) (k : PublicKey) (after : List PublicKey)
      → a.adding ≡ before ++ k ∷ after
      → Step a (record {
        locker = a.locker;
        keys = a.keys;
        adding = before ++ after;
        ended = false ∷ a.ended;
      })
  resolved :
      (a : Account) (before : List Bool) (success : Bool) (after : List Bool)
      → a.ended ≡ before ++ success ∷ after
      → Step a (record {
        locker = on_settle_resolved success a.locker;
        keys = a.keys;
        adding = a.adding;
        ended = before ++ after;
      })

pub data Reach (a : Account) : Account → Type 0 where
  here : Reach a a
  next : {b c : Account} → Reach a b → Step b c → Reach a c

-- While the locker settles, the one key is still to be added, or stands, or could not be added.
abbrev pub IsUnderWay : List PublicKey → List PublicKey → List Bool → Type 0
IsUnderWay keys adding ended =
    ((keys ≡ []) × ((k : PublicKey) × (adding ≡ k ∷ [])) × (ended ≡ []))
    ⊎ (((k : PublicKey) × (keys ≡ k ∷ [])) × (adding ≡ []) × (ended ≡ true ∷ []))
    ⊎ ((keys ≡ []) × (adding ≡ []) × (ended ≡ false ∷ []))

-- What stands on the account in each state of the locker.
abbrev pub IsSettled : LockState → List PublicKey → List PublicKey → List Bool → Type 0
IsSettled LockState.active keys adding ended = (keys ≡ []) × (adding ≡ []) × (ended ≡ [])
IsSettled LockState.settling keys adding ended = IsUnderWay keys adding ended
IsSettled LockState.settled keys adding ended =
    ((k : PublicKey) × (keys ≡ k ∷ [])) × (adding ≡ []) × (ended ≡ [])

abbrev pub IsOneShot : Account → Type 0
IsOneShot a = IsSettled a.locker.state a.keys a.adding a.ended

unlock_why :
    (caller : AccountId) (buyer_key : PublicKey) (l m : ResaleLocker) (r : Request)
    → unlock caller buyer_key l ≡ ok (m, r)
    → (l.state ≡ LockState.active)
      × (m ≡ record l { state = LockState.settling })
      × (r ≡ Request.add_full_access_key buyer_key)
unfolding unlock assert_registry assert_active
unlock_why caller buyer_key l m r h = ground arith

abort_why :
    (caller : AccountId) (l m : ResaleLocker) (r : Request)
    → abort caller l ≡ ok (m, r)
    → (l.state ≡ LockState.active)
      × (m ≡ record l { state = LockState.settling })
      × (r ≡ Request.add_full_access_key l.recovery_key)
unfolding abort assert_registry assert_active
abort_why caller l m r h = ground arith

-- A list of one element is split in one way only.
module _ {A : Type 0} where
  single_split :
      (x k : A) (before after : List A)
      → x ∷ [] ≡ before ++ k ∷ after
      → (x ≡ k) × (before ++ after ≡ [])
  single_split x k [] after e = (cc, cc)
  single_split x k (b ∷ []) after e = absurd cc
  single_split x k (b ∷ c ∷ before) after e = absurd cc

  no_split : (k : A) (before after : List A) → ¬ ([] ≡ before ++ k ∷ after)
  no_split k [] after e = cc
  no_split k (b ∷ before) after e = cc

IsSettled-active :
    (s : LockState) (keys adding : List PublicKey) (ended : List Bool)
    → s ≡ LockState.active
    → IsSettled s keys adding ended
    → (keys ≡ []) × (adding ≡ []) × (ended ≡ [])
IsSettled-active LockState.active keys adding ended e k = k
IsSettled-active LockState.settling keys adding ended e k = absurd cc
IsSettled-active LockState.settled keys adding ended e k = absurd cc

-- A key is added only in a locker that settles, and is then the only one.
IsSettled-adding :
    (s : LockState) (k : PublicKey) (keys adding before after : List PublicKey) (ended : List Bool)
    → adding ≡ before ++ k ∷ after
    → IsSettled s keys adding ended
    → (s ≡ LockState.settling) × (keys ≡ []) × (before ++ after ≡ []) × (ended ≡ [])
IsSettled-adding LockState.active k keys adding before after ended e h =
    absurd (no_split k before after (sym h.1 ∙ e))
IsSettled-adding LockState.settled k keys adding before after ended e h =
    absurd (no_split k before after (sym h.1 ∙ e))
IsSettled-adding LockState.settling k keys adding before after ended e
      (inl (none_yet, (x, one), quiet)) =
    (refl, none_yet, (single_split x k before after (sym one ∙ e)).1, quiet)
IsSettled-adding LockState.settling k keys adding before after ended e (inr (inl (one, idle, q))) =
    absurd (no_split k before after (sym idle ∙ e))
IsSettled-adding LockState.settling k keys adding before after ended e (inr (inr (one, idle, q))) =
    absurd (no_split k before after (sym idle ∙ e))

-- The state that a callback leaves fits what has become of the key.
IsSettled-ended :
    (l : ResaleLocker) (success : Bool) (keys adding : List PublicKey)
    (ended before after : List Bool)
    → ended ≡ before ++ success ∷ after
    → IsSettled l.state keys adding ended
    → IsSettled (on_settle_resolved success l).state keys adding (before ++ after)
unfolding on_settle_resolved
IsSettled-ended l success keys adding ended before after e h = settled_from l.state refl h
  where
    settled_from :
        (s : LockState)
        → l.state ≡ s
        → IsSettled s keys adding ended
        → IsSettled (on_settle_resolved success l).state keys adding (before ++ after)
    settled_from LockState.active f (_, _, quiet) =
        absurd (no_split success before after (sym quiet ∙ e))
    settled_from LockState.settled f (_, _, quiet) =
        absurd (no_split success before after (sym quiet ∙ e))
    settled_from LockState.settling f (inl (_, _, quiet)) =
        absurd (no_split success before after (sym quiet ∙ e))
    settled_from LockState.settling f (inr (inl (one, idle, q))) =
        let (was, rest) = single_split true success before after (sym q ∙ e) in
        rw (← was) (one, idle, rest)
    settled_from LockState.settling f (inr (inr (none_yet, idle, q))) =
        let (was, rest) = single_split false success before after (sym q ∙ e) in
        rw (← was) (none_yet, idle, rest)

Step-IsOneShot : (a b : Account) → Step a b → IsOneShot a → IsOneShot b
Step-IsOneShot _ _ (unlocked a caller buyer_key k l h) c =
    let (was, moved, _) =
      unlock_why caller buyer_key a.locker l (Request.add_full_access_key k) h in
    let (none_yet, idle, quiet) = IsSettled-active a.locker.state a.keys a.adding a.ended was c in
    rw moved (inl (none_yet, (k, ap (λ ks. k ∷ ks) idle), quiet))
Step-IsOneShot _ _ (aborted a caller k l h) c =
    let (was, moved, _) = abort_why caller a.locker l (Request.add_full_access_key k) h in
    let (none_yet, idle, quiet) = IsSettled-active a.locker.state a.keys a.adding a.ended was c in
    rw moved (inl (none_yet, (k, ap (λ ks. k ∷ ks) idle), quiet))
Step-IsOneShot _ _ (added a before k after e) c =
    let (was, none_yet, rest, quiet) =
      IsSettled-adding a.locker.state k a.keys a.adding before after a.ended e c in
    rw was (inr (inl ((k, ap (λ ks. k ∷ ks) none_yet), rest, ap (λ rs. true ∷ rs) quiet)))
Step-IsOneShot _ _ (not_added a before k after e) c =
    let (was, none_yet, rest, quiet) =
      IsSettled-adding a.locker.state k a.keys a.adding before after a.ended e c in
    rw was (inr (inr (none_yet, rest, ap (λ rs. false ∷ rs) quiet)))
Step-IsOneShot _ _ (resolved a before success after e) c =
    IsSettled-ended a.locker success a.keys a.adding a.ended before after e c

-- At most one key is ever added to the account, by an unlock or an abort and never by both. None
-- stands while the locker is active, and exactly one once it is settled; while it settles, the one
-- key is still to be added, or stands, or could not be added, and no second is asked for.
pub always-IsOneShot :
    (registry : AccountId) (recovery_key : PublicKey) (a : Account)
    → Reach (start registry recovery_key) a
    → IsOneShot a
always-IsOneShot registry recovery_key _ here = (refl, refl, refl)
always-IsOneShot registry recovery_key _ (next r st) =
    Step-IsOneShot _ _ st (always-IsOneShot registry recovery_key _ r)

-- An unlock or an abort succeeds exactly for the registry and in an active locker. The locker is
-- then settling; the unlock asks for the given key, and the abort for the recovery key.
pub unlock_or_abort :
    (caller : AccountId) (buyer_key : PublicKey) (l m : ResaleLocker) (r : Request)
    → ((unlock caller buyer_key l ≡ ok (m, r)) ↔ (
        (caller ≡ l.registry)
        × (l.state ≡ LockState.active)
        × (m ≡ record l { state = LockState.settling })
        × (r ≡ Request.add_full_access_key buyer_key)))
      × ((abort caller l ≡ ok (m, r)) ↔ (
          (caller ≡ l.registry)
          × (l.state ≡ LockState.active)
          × (m ≡ record l { state = LockState.settling })
          × (r ≡ Request.add_full_access_key l.recovery_key)))
unfolding unlock abort assert_registry assert_active
unlock_or_abort caller buyer_key l m r = (
  (λ h. ground (arith, eq_iff caller l.registry), λ h. ground (arith, eq_iff caller l.registry)),
  (λ h. ground (arith, eq_iff caller l.registry), λ h. ground (arith, eq_iff caller l.registry)),
)
