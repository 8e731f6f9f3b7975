-- ===== src/System/Locks/Drained.antt =====
-- Without new calls the callbacks come to an end, and then no account is locked.
use hos_tla.Base.{
  ℕ, zero, suc, ◌+◌, ◌-◌, ◌≤◌, ◌⊎◌, ◌<◌, ◌≡◌, refl, ap, false, Option, List, [], ◌∷◌, ◌++◌, arith,
  Text, ok, err, Result-cases, Bool-cases, inl, inr,
}
use hos_tla.Types.{AccountId}
use hos_tla.Registry.{Callback, Promise, Registry, Env}
use hos_tla.Marketplace.{settle_transfer}
use hos_tla.Marketplace.Sale.{on_buy_balances_checked}
use hos_tla.Reclaim.{on_balances_checked}
use hos_tla.System.{Answer, Ending, resolve}
use hos_tla.System.Ledger.{spent}
use hos_tla.System.Network.{
  Flight, launch, Network, start, Step, called, refused, resolved, panicked, Reach, next,
}
use hos_tla.System.Locks.{is_settling, sales}
use hos_tla.System.Locks.Released.{always-IsReleasable}

-- How many callbacks a callback can bring about, itself included: the check of the balances
-- launches the call of the locker, and that has a callback in turn.
abbrev pub rounds : Callback → ℕ
rounds (Callback.on_balances_checked _ _ _ _) = 2
rounds (Callback.on_buy_balances_checked _ _) = 2
rounds _ = 1

abbrev pub rounds_left : List Flight → ℕ
rounds_left [] = 0
rounds_left (f ∷ fs) = rounds f.callback + rounds_left fs

rounds_left-append :
    (fs gs : List Flight) → rounds_left (fs ++ gs) ≡ rounds_left fs + rounds_left gs
rounds_left-append [] gs = omega arith
rounds_left-append (f ∷ fs) gs = omega (arith, rounds_left-append fs gs)

rounds-pos : (cb : Callback) → 0 < rounds cb
rounds-pos cb = ground arith

resolve-rounds :
    (env : Env) (e : Ending) (cb : Callback) (s t : Registry) (p : Option Promise)
    → resolve env e cb s ≡ ok (t, p)
    → rounds_left (launch p) < rounds cb
unfolding resolve on_balances_checked on_buy_balances_checked settle_transfer
resolve-rounds env e (Callback.on_claim_refund_settled c n) s t p h = ground arith
resolve-rounds env e _ s t p h = ground arith

-- A step that is a callback, and no call.
abbrev pub IsLanding : (n m : Network) → Step n m → Type 0
IsLanding _ _ (called _ _ _ _ _ _ _ _) = ⊥
IsLanding _ _ (refused _ _ _ _ _) = ⊥
IsLanding _ _ (resolved _ _ _ _ _ _ _ _ _ _) = Unit
IsLanding _ _ (panicked _ _ _ _ _ _ _ _ _) = Unit

-- A run of so many callbacks.
pub data Lands (n : Network) : ℕ → Network → Type 0 where
  rest : Lands n zero n
  land :
      {k : ℕ} {m q : Network} → Lands n k m → (st : Step m q) → IsLanding m q st → Lands n (suc k) q

landing-rounds :
    (n m : Network) (st : Step n m)
    → IsLanding n m st
    → rounds_left m.in_flight < rounds_left n.in_flight
landing-rounds _ _ (called n env op t p h timely fits) l = absurd l
landing-rounds _ _ (refused n env op c h) l = absurd l
landing-rounds _ _ (resolved n env e before f after t p split h) l = omega (
  arith,
  ap rounds_left split,
  rounds_left-append before (f ∷ after),
  rounds_left-append before after,
  rounds_left-append (launch p) (before ++ after),
  resolve-rounds env e f.callback n.registry t p h,
)
landing-rounds _ _ (panicked n env e before f after c split h) l = omega (
  arith,
  ap rounds_left split,
  rounds_left-append before (f ∷ after),
  rounds_left-append before after,
  rounds-pos f.callback,
)

-- Whatever the calls return and in whatever order their callbacks run, a run of callbacks with no
-- call of the registry in between is no longer than the rounds that are left at its start.
pub callbacks_end :
    (n m : Network) (k : ℕ) → Lands n k m → k + rounds_left m.in_flight ≤ rounds_left n.in_flight
callbacks_end n _ _ rest = omega arith
callbacks_end n _ _ (land {k} {m} {q} r st l) =
    omega (arith, callbacks_end n m k r, landing-rounds m q st l)

Lands-Reach : (a n m : Network) (k : ℕ) → Reach a n → Lands n k m → Reach a m
Lands-Reach a n _ _ r rest = r
Lands-Reach a n _ _ r (land l st _) = next (Lands-Reach a n _ _ r l) st

-- What the network answers to the next callback, by the state in which it runs.
abbrev pub Schedule : Type 0
Schedule = Network → Env × Ending

abbrev pub landed : Network → Ending → Flight → List Flight → Answer → Network
landed n e f fs (ok (t, p)) = record {
  registry = t;
  in_flight = launch p ++ fs;
  holdings = n.holdings - spent e.success f.sent;
}
landed n e f fs (err c) = record {
  registry = n.registry;
  in_flight = fs;
  holdings = n.holdings - spent e.success f.sent;
}

abbrev pub land_head : Env × Ending → Network → List Flight → Network
land_head (env, e) n [] = n
land_head (env, e) n (f ∷ fs) = landed n e f fs (resolve env e f.callback n.registry)

-- So many callbacks run, the first in flight at a time.
unfoldable pub land_all : ℕ → Schedule → Network → Network
land_all zero answer n = n
land_all (suc k) answer n = land_all k answer (land_head (answer n) n n.in_flight)

land_head-Step :
    (env : Env) (e : Ending) (n : Network) (f : Flight) (fs : List Flight)
    → n.in_flight ≡ f ∷ fs
    → (st : Step n (landed n e f fs (resolve env e f.callback n.registry))) × IsLanding n
        (landed n e f fs (resolve env e f.callback n.registry))
        st
land_head-Step env e n f fs split = elim (Result-cases (resolve env e f.callback n.registry)) [
  | inl ((t, p), h) ↦ rw h (resolved n env e [] f fs t p split h, tt)
  | inr (c, h) ↦ rw h (panicked n env e [] f fs c split h, tt)
]

list-cases : (fs : List Flight) → (fs ≡ []) ⊎ ((f : Flight) × ((gs : List Flight) × (fs ≡ f ∷ gs)))
list-cases [] = inl refl
list-cases (f ∷ gs) = inr (f, (gs, refl))

no_rounds : (fs : List Flight) → rounds_left fs ≤ 0 → fs ≡ []
no_rounds [] h = refl
no_rounds (f ∷ fs) h = absurd (omega (arith, rounds-pos f.callback))

land_all-empty :
    (k : ℕ) (answer : Schedule) (a n : Network)
    → rounds_left n.in_flight ≤ k
    → Reach a n
    → Reach a (land_all k answer n) × ((land_all k answer n).in_flight ≡ [])
unfolding land_all
land_all-empty zero answer a n le r = (r, no_rounds n.in_flight (omega arith))
land_all-empty (suc k) answer a n le r = elim (list-cases n.in_flight) [
  | inl none_left ↦
      let still : land_all (suc k) answer n ≡ land_all k answer n =
        ap (λ fs. land_all k answer (land_head (answer n) n fs)) none_left in
      rw still (land_all-empty k answer a n (omega (arith, ap rounds_left none_left)) r)
  | inr (f, (gs, split)) ↦
      let (env, e) = answer n in
      let m = landed n e f gs (resolve env e f.callback n.registry) in
      let (st, l) = land_head-Step env e n f gs split in
      let moved : land_all (suc k) answer n ≡ land_all k answer m =
        ap (λ fs. land_all k answer (land_head (answer n) n fs)) split in
      rw moved (land_all-empty k answer a m (omega (arith, landing-rounds n m st l)) (next r st))
]

-- Whatever the calls of the promises return, once the callbacks of a reached state have run,
-- `rounds_left` of them at most and with no call of the registry in between, nothing is in flight
-- and no account is locked by a sale.
pub all_released :
    (admin : AccountId) (answer : Schedule) (n : Network)
    → Reach (start admin) n
    → let q = land_all (rounds_left n.in_flight) answer n in
      (q.in_flight ≡ []) × ((key : Text) → is_settling key q.registry ≡ false)
all_released admin answer n r =
    let q = land_all (rounds_left n.in_flight) answer n in
    let (reached, none_left) =
      land_all-empty (rounds_left n.in_flight) answer (start admin) n (omega arith) r in
    (
      none_left,
      λ key. elim (Bool-cases (is_settling key q.registry)) [
        | inr idle ↦ idle
        | inl locked ↦ absurd (
            omega (arith, always-IsReleasable admin q key reached locked, ap (sales key) none_left))
      ],
    )
