-- ===== src/SubAccountLocker/Custody.antt =====
-- The key of a rented account: when one is added to it, and whose.
use hos_tla.Base.{◌≡◌, ◌≢◌, refl, true, false, List, [], ◌∷◌, ◌++◌, arith, eq_iff, ok, sym, ◌∙◌}
use hos_tla.Types.{AccountId, PublicKey}
use hos_tla.SubAccountLocker.{
  SubState, SubAccountLocker, Request, new, export, on_export_resolved, transfer, sweep_ft,
  finalize_delete, assert_registry, assert_held,
}

-- The account with its locker: the keys that stand on it, and those whose addition is under way.
pub record Account : Type 0 where
  pub locker : SubAccountLocker
  pub keys : List PublicKey
  pub adding : List PublicKey

abbrev pub start : AccountId → PublicKey → Account
start registry owner_key = record { locker = new registry owner_key; keys = []; adding = [] }

-- A method that changes the locker, called by anyone, or the end of an addition that is under way.
-- The network runs the callback once for each request; an addition and its callback are one step.
pub data Step : Account → Account → Type 0 where
  exported :
      (a : Account) (caller : AccountId) (l : SubAccountLocker) (k : PublicKey)
      → export caller a.locker ≡ ok (l, Request.add_full_access_key k)
      → Step a (record { locker = l; keys = a.keys; adding = k ∷ a.adding })
  handed_on :
      (a : Account) (caller : AccountId) (k : PublicKey) (l : SubAccountLocker)
      → transfer caller k a.locker ≡ ok l
      → Step a (record a { locker = l })
  added :
      (a : Account) (before : List PublicKey) (k : PublicKey) (after : List PublicKey)
      → a.adding ≡ before ++ k ∷ after
      → Step a (record {
        locker = on_export_resolved true a.locker;
        keys = k ∷ a.keys;
        adding = before ++ after;
      })
  not_added :
      (a : Account) (before : List PublicKey) (k : PublicKey) (after : List PublicKey)
      → a.adding ≡ before ++ k ∷ after
      → Step a (record {
        locker = on_export_resolved false a.locker;
        keys = a.keys;
        adding = before ++ after;
      })

pub data Reach (a : Account) : Account → Type 0 where
  here : Reach a a
  next : {b c : Account} → Reach a b → Step b c → Reach a c

-- What stands on the account in each state of the locker.
abbrev pub IsKept : SubState → PublicKey → List PublicKey → List PublicKey → Type 0
IsKept SubState.held owner keys adding = (keys ≡ []) × (adding ≡ [])
IsKept SubState.exporting owner keys adding = (keys ≡ []) × (adding ≡ owner ∷ [])
IsKept SubState.exported owner keys adding = (keys ≡ owner ∷ []) × (adding ≡ [])

abbrev pub IsCustody : Account → Type 0
IsCustody a = IsKept a.locker.state a.locker.owner_key a.keys a.adding

single_split :
    (x k : PublicKey) (before after : List PublicKey)
    → x ∷ [] ≡ before ++ k ∷ after
    → (x ≡ k) × (before ++ after ≡ [])
single_split x k [] after e = (cc, cc)
single_split x k (b ∷ []) after e = absurd cc
single_split x k (b ∷ c ∷ before) after e = absurd cc

no_split : (k : PublicKey) (before after : List PublicKey) → ¬ ([] ≡ before ++ k ∷ after)
no_split k [] after e = cc
no_split k (b ∷ before) after e = cc

-- An export is only for the registry and only from `held`, and asks for the owner's key.
pub export_why :
    (caller : AccountId) (l m : SubAccountLocker) (r : Request)
    → export caller l ≡ ok (m, r)
    → (caller ≡ l.registry)
      × (l.state ≡ SubState.held)
      × (m ≡ record l { state = SubState.exporting })
      × (r ≡ Request.add_full_access_key l.owner_key)
unfolding export assert_registry assert_held
export_why caller l m r h = ground (arith, eq_iff caller l.registry)

pub transfer_why :
    (caller : AccountId) (k : PublicKey) (l m : SubAccountLocker)
    → transfer caller k l ≡ ok m
    → (caller ≡ l.registry) × (l.state ≡ SubState.held) × (m ≡ record l { owner_key = k })
unfolding transfer assert_registry assert_held
transfer_why caller k l m h = ground (arith, eq_iff caller l.registry)

IsKept-held :
    (s : SubState) (o : PublicKey) (keys adding : List PublicKey)
    → s ≡ SubState.held
    → IsKept s o keys adding
    → (keys ≡ []) × (adding ≡ [])
IsKept-held SubState.held o keys adding e k = k
IsKept-held SubState.exporting o keys adding e k = absurd cc
IsKept-held SubState.exported o keys adding e k = absurd cc

IsKept-adding :
    (s : SubState) (o k : PublicKey) (keys adding before after : List PublicKey)
    → adding ≡ before ++ k ∷ after
    → IsKept s o keys adding
    → (k ≡ o) × (keys ≡ []) × (before ++ after ≡ [])
IsKept-adding SubState.held o k keys adding before after e h =
    absurd (no_split k before after (sym h.1 ∙ e))
IsKept-adding SubState.exported o k keys adding before after e h =
    absurd (no_split k before after (sym h.1 ∙ e))
IsKept-adding SubState.exporting o k keys adding before after e h =
    let (same, rest) = single_split o k before after (sym h.1 ∙ e) in (sym same, h.0, rest)

Step-IsCustody : (a b : Account) → Step a b → IsCustody a → IsCustody b
unfolding on_export_resolved
Step-IsCustody _ _ (exported a caller l k h) c =
    let (_, was_held, moved, asked) =
      export_why caller a.locker l (Request.add_full_access_key k) h in
    let (none_yet, none_adding) =
      IsKept-held a.locker.state a.locker.owner_key a.keys a.adding was_held c in
    rw moved (none_yet, cc)
Step-IsCustody _ _ (handed_on a caller k l h) c =
    let (_, was_held, moved) = transfer_why caller k a.locker l h in
    let kept = IsKept-held a.locker.state a.locker.owner_key a.keys a.adding was_held c in
    rw moved (rw was_held kept)
Step-IsCustody _ _ (added a before k after e) c =
    let (same, no_key, rest) =
      IsKept-adding a.locker.state a.locker.owner_key k a.keys a.adding before after e c in
    (rw same (rw no_key refl), rest)
Step-IsCustody _ _ (not_added a before k after e) c =
    let (same, no_key, rest) =
      IsKept-adding a.locker.state a.locker.owner_key k a.keys a.adding before after e c in
    (no_key, rest)

-- While the locker holds the account, no key stands on it and none is being added. An export that
-- is under way is adding the owner's key, and after it exactly that key stands on the account,
-- whatever the order of calls.
pub always-IsCustody :
    (registry : AccountId) (owner_key : PublicKey) (a : Account)
    → Reach (start registry owner_key) a
    → IsCustody a
always-IsCustody registry owner_key _ here = (refl, refl)
always-IsCustody registry owner_key _ (next r st) =
    Step-IsCustody _ _ st (always-IsCustody registry owner_key _ r)

-- Unless the caller is the registry and the account is held, no export, no transfer, no sweep and
-- no deletion succeeds.
pub held_gate :
    (caller other : AccountId) (k : PublicKey) (ft : AccountId) (l m : SubAccountLocker)
    (r : Request)
    → ¬ ((caller ≡ l.registry) × (l.state ≡ SubState.held))
    → (export caller l ≢ ok (m, r))
      × (transfer caller k l ≢ ok m)
      × (sweep_ft caller ft other l ≢ ok r)
      × (finalize_delete caller other l ≢ ok r)
unfolding export transfer sweep_ft finalize_delete assert_registry assert_held
held_gate caller other k ft l m r barred = (
  λ h. ground (arith, eq_iff caller l.registry),
  λ h. ground (arith, eq_iff caller l.registry),
  λ h. ground (arith, eq_iff caller l.registry),
  λ h. ground (arith, eq_iff caller l.registry),
)
