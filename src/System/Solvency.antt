-- ===== src/System/Solvency.antt =====
-- The registry holds what it owes, whatever calls and callbacks come in whatever order.
use hos_tla.Base.{
  ℕ, Bool, ◌+◌, ◌-◌, ◌≤◌, ◌<◌, ◌≡◌, Option, List, [], ◌∷◌, ◌++◌, arith, u128_max, ok,
}
use hos_tla.Base.Maps.Sums.{sum_by, weight-le-sum_by}
use hos_tla.Types.{AccountId, FeeConfig}
use hos_tla.Registry.{Callback, Promise, Registry, Env}
use hos_tla.Core.{get_pending_refund}
use hos_tla.System.{Op, call}
use hos_tla.System.Ledger.{money, amount, held, held_by, IsLedger, Moves, IsFunded, spent}
use hos_tla.System.Ledger.Calls.{call-Moves}
use hos_tla.System.Ledger.Callbacks.{resolve-Moves}
use hos_tla.System.Network.{
  Flight, launch, Network, start, Covers, CoversOne, IsTimely, Step, called, refused, resolved,
  panicked, Reach, Reach_induction,
}
use hos_tla.System.Funding.{
  AllFunded, config_after, call-fee_config, call-AllFunded, resolve-fee_config, resolve-AllFunded,
}

-- What is owed to the users of the promises in flight.
abbrev pub held_all : List Flight → ℕ
held_all [] = 0
held_all (f ∷ fs) = held f.callback + held_all fs

-- The account holds what can be claimed, what can be withdrawn, and what is owed in flight; the
-- refund queue adds up; and every promise in flight is funded.
pub record IsSolvent (n : Network) : Type 0 where
  pub ledger : IsLedger n.registry
  pub covered : money n.registry + held_all n.in_flight ≤ n.holdings
  pub in_range : n.holdings < u128_max
  pub funded : AllFunded n.registry.fee_config n.in_flight

held_all-append : (fs gs : List Flight) → held_all (fs ++ gs) ≡ held_all fs + held_all gs
held_all-append [] gs = omega arith
held_all-append (f ∷ fs) gs = omega (arith, held_all-append fs gs)

held_all-launch : (p : Option Promise) → held_all (launch p) ≡ held_by p
held_all-launch p = ground arith

module _ (config : FeeConfig) where
  AllFunded-append :
      (fs gs : List Flight)
      → AllFunded config fs
      → AllFunded config gs
      → AllFunded config (fs ++ gs)
  AllFunded-append [] gs hf hg = hg
  AllFunded-append (f ∷ fs) gs hf hg = (hf.0, AllFunded-append fs gs hf.1 hg)

  AllFunded-split :
      (fs : List Flight) (f : Flight) (gs : List Flight)
      → AllFunded config (fs ++ f ∷ gs)
      → IsFunded config f.sent f.callback × AllFunded config (fs ++ gs)
  AllFunded-split [] f gs h = h
  AllFunded-split (g ∷ fs) f gs h = let r = AllFunded-split fs f gs h.1 in (r.0, (h.0, r.1))

-- Under another configuration that CoversOne the rentals in flight.
IsFunded-CoversOne :
    (c d : FeeConfig) (sent : ℕ) (cb : Callback)
    → IsFunded c sent cb
    → CoversOne d sent cb
    → IsFunded d sent cb
IsFunded-CoversOne c d sent cb h k = ground arith

AllFunded-Covers :
    (c d : FeeConfig) (fs : List Flight) → AllFunded c fs → Covers d fs → AllFunded d fs
AllFunded-Covers c d [] h k = tt
AllFunded-Covers c d (f ∷ fs) h k =
    (IsFunded-CoversOne c d f.sent f.callback h.0 k.0, AllFunded-Covers c d fs h.1 k.1)

config_after-AllFunded :
    (op : Op) (s : Registry) (fs : List Flight)
    → AllFunded s.fee_config fs
    → IsTimely op fs
    → AllFunded (config_after op s) fs
config_after-AllFunded (Op.update_fee_config c) s fs h k = AllFunded-Covers s.fee_config c fs h k
config_after-AllFunded _ s fs h k = h

spent-le-held :
    (config : FeeConfig) (success : Bool) (sent : ℕ) (cb : Callback)
    → IsFunded config sent cb
    → spent success sent ≤ held cb
spent-le-held config success sent cb h = ground arith

called-IsSolvent :
    (n : Network) (env : Env) (op : Op) (t : Registry) (p : Option Promise)
    → IsSolvent n
    → call env op n.registry ≡ ok (t, p)
    → IsTimely op n.in_flight
    → n.holdings + env.attached_deposit < u128_max
    → IsSolvent (record {
      registry = t;
      in_flight = launch p ++ n.in_flight;
      holdings = n.holdings + env.attached_deposit;
    })
called-IsSolvent n env op t p k h timely fits =
    let moves = call-Moves env op n.registry t p k.ledger h in
    let here_now = config_after-AllFunded op n.registry n.in_flight k.funded timely in
    let new_ones = call-AllFunded env op n.registry t p (omega arith) h in
    let config = call-fee_config env op n.registry t p h in
    record {
      ledger = moves.ledger (omega (arith, k.covered));
      covered =
          omega (
            arith,
            held_all-append (launch p) n.in_flight,
            held_all-launch p,
            moves.owed,
            k.covered,
          );
      in_range = fits;
      funded =
          rw config (
            AllFunded-append (config_after op n.registry) (launch p) n.in_flight new_ones here_now);
    }

-- A flight that lands, with the promise that its callback leaves, or none.
module _ (n : Network) (before : List Flight) (f : Flight) (after : List Flight) (k : IsSolvent n)
    (split : n.in_flight ≡ before ++ f ∷ after) where
  landing :
      IsFunded n.registry.fee_config f.sent f.callback
      × AllFunded n.registry.fee_config (before ++ after)
  landing = AllFunded-split n.registry.fee_config before f after (rw split at k.funded)

  landing_owed : money n.registry + held f.callback + held_all (before ++ after) ≤ n.holdings
  landing_owed =
      let c = rw (split, held_all-append) at k.covered in
      omega (arith, c, held_all-append before after)

  landed-IsSolvent :
      (t : Registry) (p : Option Promise) (success : Bool)
      → Moves (held f.callback) (spent success f.sent) n.registry t p
      → t.fee_config ≡ n.registry.fee_config
      → AllFunded n.registry.fee_config (launch p)
      → IsSolvent (record {
        registry = t;
        in_flight = launch p ++ (before ++ after);
        holdings = n.holdings - spent success f.sent;
      })
  landed-IsSolvent t p success moves config new_ones = record {
    ledger = moves.ledger (omega (arith, landing_owed, k.in_range));
    covered = omega (
      arith,
      held_all-append (launch p) (before ++ after),
      held_all-launch p,
      moves.owed,
      landing_owed,
      spent-le-held n.registry.fee_config success f.sent f.callback landing.0,
    );
    in_range = omega (arith, k.in_range);
    funded =
        rw config
          (AllFunded-append n.registry.fee_config (launch p) (before ++ after) new_ones landing.1);
  }

-- Every call and callback keeps the registry solvent.
pub Step-IsSolvent : (n m : Network) → Step n m → IsSolvent n → IsSolvent m
Step-IsSolvent _ _ (called n env op t p h timely fits) k =
    called-IsSolvent n env op t p k h timely fits
Step-IsSolvent _ _ (refused n env op c h) k = k
Step-IsSolvent _ _ (resolved n env e before f after t p split h) k =
    let here_now = landing n before f after k split in
    let owed = landing_owed n before f after k split in
    let range = k.in_range in
    landed-IsSolvent n before f after k split t p e.success
      (resolve-Moves env e f.callback f.sent n.registry t p k.ledger (omega arith) here_now.0 h)
      (resolve-fee_config env e f.callback n.registry t p h)
      (resolve-AllFunded env e f.callback f.sent n.registry t p here_now.0 h)
Step-IsSolvent _ _ (panicked n env e before f after c split h) k =
    let here_now = landing n before f after k split in
    record {
      ledger = k.ledger;
      covered = omega (
        arith,
        landing_owed n before f after k split,
        spent-le-held n.registry.fee_config e.success f.sent f.callback here_now.0,
      );
      in_range = omega (arith, k.in_range);
      funded = here_now.1;
    }

start-IsSolvent : (admin : AccountId) → IsSolvent (start admin)
start-IsSolvent admin = ground arith

-- From the deployed contract on, whatever calls and callbacks come in whatever order, as long as
-- no sum reaches the top of `u128` and an admin never lowers the creation deposit below what a
-- rental in flight took along: the account holds at least the revenue, all pending refunds and
-- what is owed in flight, and the pending refunds of all accounts add up to
-- `total_pending_refunds`.
pub solvency :
    (admin : AccountId) (n : Network)
    → Reach (start admin) n
    → (n.registry.total_revenue + n.registry.total_pending_refunds + held_all n.in_flight
        ≤ n.holdings)
      × (sum_by amount n.registry.pending_refunds ≡ n.registry.total_pending_refunds)
solvency admin n r =
    let k = Reach_induction IsSolvent Step-IsSolvent (start-IsSolvent admin) r in
    (k.covered, k.ledger.adds_up)

-- So every single pending refund is covered by what the account holds.
pub refund_covered :
    (admin a : AccountId) (n : Network)
    → Reach (start admin) n
    → get_pending_refund a n.registry ≤ n.holdings
unfolding get_pending_refund
refund_covered admin a n r =
    let k = solvency admin n r in
    ground (arith, k.0, k.1, weight-le-sum_by amount a n.registry.pending_refunds)
