-- ===== src/System/World/Agreement.antt =====
-- The registry's entries and the accounts agree.
use hos_tla.Base.{
  ◌+◌, ◌<◌, ◌≡◌, ◌↔◌, refl, ap, true, false, some, List, [], ◌∷◌, ◌++◌, arith, Text, eq_refl,
  Option-cases, inl, inr,
}
use hos_tla.Base.Maps.{get, insert, contains_key}
use hos_tla.Types.{AccountId}
use hos_tla.Registry.{Call, Callback}
use hos_tla.SubAccountLocker.{SubState, SubAccountLocker, on_export_resolved}
use hos_tla.System.World.{
  Pending, World, start, Step, called, created, executed, failed, key_added, key_refused, departed,
  resolved, panicked, IsAdded, AllAdded, Reach, here, next, after_execution,
}
use hos_tla.System.World.Accounts.{
  controlled, exporting, executed-Balances, created-Balances, added-Balances, failed-Balances,
}
use hos_tla.System.World.Requests.{owes, adds, total, total-append, entered}
use hos_tla.System.World.Steps.{
  Agrees, replaced-Agrees, called-Agrees, resolved-Agrees, panicked-Agrees, departed-Agrees,
}

-- The locker of an account to which a key is being added is exporting.
adding-exporting :
    (a : Text) (w : World) (before : List Pending) (cb : Callback) (after : List Pending)
    (l : SubAccountLocker)
    → Agrees a w
    → w.pending ≡ before ++ Pending.adding a cb ∷ after
    → get a w.accounts ≡ some l
    → l.state ≡ SubState.exporting
adding-exporting a w before cb after l k split e =
    let self_key = eq_refl a in
    let counted = total-append (adds a) before (Pending.adding a cb ∷ after) in
    let busy : 0 < exporting a w.accounts =
      ground (arith, k.adding, ap (total (adds a)) split, counted, self_key) in
    ground (arith, busy, e)

Step-Agrees :
    (self : AccountId) (w v : World)
    → (st : Step self w v) → IsAdded self w v st
    → ((key : Text) → Agrees key w)
    → (key : Text) → Agrees key v
Step-Agrees self _ _ (called w env op t p h typed) fine k key =
    called-Agrees key w (k key) env op t p h
Step-Agrees self _ _ (created w before tla name kk d cb after env mg b l split at h one new_one)
      fine k key =
    replaced-Agrees key w (k key) before
      (Pending.asked (some (Call.create_sub_account tla name kk d)) cb) (Pending.answered true cb)
      after (insert b.receiver l w.accounts) split
      (λ fit. created-Balances key tla name kk d cb env mg b l w.accounts fit at h one new_one)
Step-Agrees self _ _ (executed w before c cb after m split plain_call h) fine k key =
    replaced-Agrees key w (k key) before (Pending.asked (some c) cb) (after_execution c cb) after m
      split (λ fit. executed-Balances self key c cb w.accounts m plain_call fit h)
Step-Agrees self _ _ (failed w before c cb after split) fine k key =
    replaced-Agrees key w (k key) before (Pending.asked c cb) (Pending.answered false cb) after
      w.accounts split (λ fit. failed-Balances key c cb w.accounts fit)
Step-Agrees self _ _ (key_added w before a cb after l split e) fine k key =
    replaced-Agrees key w (k key) before (Pending.adding a cb) (Pending.answered true cb) after
      (insert a (on_export_resolved true l) w.accounts) split
      (λ fit.
        added-Balances key a cb l w.accounts e
          (adding-exporting a w before cb after l (k a) split e) fit)
Step-Agrees self _ _ (departed w a l e gone) fine k key = departed-Agrees key w (k key) a l e gone
Step-Agrees self _ _ (resolved w env e before cb after t p split h) fine k key =
    resolved-Agrees key w (k key) env e before cb after t p split h
Step-Agrees self _ _ (panicked w env e before cb after c split h) fine k key =
    panicked-Agrees key w (k key) env e before cb after c split h
Step-Agrees self _ _ (key_refused _ _ _ _ _ _ _ _) fine k key = absurd fine

start-Agrees : (admin : AccountId) (key : Text) → Agrees key (start admin)
unfolding get
start-Agrees admin key = record { one_each = refl; adding = refl; fit = tt }

pub all-Agrees :
    (self admin : AccountId) (w : World) (r : Reach self (start admin) w)
    → AllAdded self (start admin) w r
    → (key : Text) → Agrees key w
all-Agrees self admin _ here fine = start-Agrees admin
all-Agrees self admin _ (next {v} {u} r st) (fine, before) =
    Step-Agrees self v u st fine (all-Agrees self admin v r before)

-- With the managers and the lockers running their own code, in whatever order the requests and the
-- callbacks run, a name is entered in the registry exactly as often as its account stands under
-- the registry's control, or its creation is still to run or has failed, or it has been deleted or
-- exported and the callback is still to run; so these never go together. No addition of a key to an
-- account that is exported is taken to fail (`AllAdded`).
pub entered_exactly :
    (self admin : AccountId) (w : World) (key : Text)
    → (r : Reach self (start admin) w) → AllAdded self (start admin) w r
    → entered key w.registry ≡ controlled key w.accounts + total (owes key) w.pending
entered_exactly self admin w key r fine = (all-Agrees self admin w r fine key).one_each

-- When nothing is pending, the names that the registry has entered are exactly those whose account
-- its locker holds, provided that no addition of a key to an account that is exported has failed
-- (`AllAdded`).
pub settled_agreement :
    (self admin : AccountId) (w : World) (key : Text)
    → (r : Reach self (start admin) w) → AllAdded self (start admin) w r
    → w.pending ≡ []
    → (contains_key key w.registry.sub_accounts ≡ true)
      ↔ ((l : SubAccountLocker) × (get key w.accounts ≡ some l) × (l.state ≡ SubState.held))
unfolding contains_key
settled_agreement self admin w key r fine idle =
    let k = all-Agrees self admin w r fine key in
    let none_owed = ap (total (owes key)) idle in
    let none_adding = ap (total (adds key)) idle in
    (
      λ there. elim (Option-cases (get key w.accounts)) [
        | inl e ↦ absurd (ground (arith, k.one_each, none_owed))
        | inr (l, e) ↦ (l, e, ground (arith, k.one_each, none_owed, k.adding, none_adding))
      ],
      λ (l, e, held). ground (arith, k.one_each, none_owed),
    )
