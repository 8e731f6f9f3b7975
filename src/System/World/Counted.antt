-- ===== src/System/World/Counted.antt =====
-- The registry's count of the names of a business TLA, over the network with the accounts.
use hos_tla.Base.{◌≡◌, refl, ap, ◌∙◌, ◌∷◌, arith, some}
use hos_tla.Base.Maps.{get}
use hos_tla.Base.Maps.Sums.{sum_by}
use hos_tla.Types.{AccountId, TlaType, TlaEntry}
use hos_tla.Registry.{Registry}
use hos_tla.Business.{get_business_sub_count}
use hos_tla.System.World.{
  Pending, World, start, Step, called, created, executed, failed, key_added, key_refused, AllAdded,
  departed, resolved, panicked, Reach, here, next,
}
use hos_tla.System.World.Requests.{owes, total, total-append}
use hos_tla.System.World.Agreement.{entered_exactly}
use hos_tla.System.Census.{kind, under, Tally, IsCapped}
use hos_tla.System.Census.Kinds.{call-kind, resolve-kind}
use hos_tla.System.Census.Calls.{call-Tally, call-IsCapped}
use hos_tla.System.Census.Callbacks.{resolve-Tally, resolve-IsCapped}
use hos_tla.System.Census.Traces.{
  AllTraced, call-AllTraced, resolve-AllTraced, NoDots, traced-IsRead,
}

Step-kind :
    (self : AccountId) (w v : World) (b : AccountId) (k : TlaType)
    → Step self w v
    → kind b w.registry ≡ some k
    → kind b v.registry ≡ some k
Step-kind self _ _ b k (called w env op t p h typed) e = call-kind env b op w.registry t p k h e
Step-kind self _ _ b k (resolved w env en before cb after t p split h) e =
    resolve-kind env en b cb w.registry t p h ∙ e
Step-kind self _ _ b k (created _ _ _ _ _ _ _ _ _ _ _ _ _ _ _ _ _) e = e
Step-kind self _ _ b k (executed _ _ _ _ _ _ _ _ _) e = e
Step-kind self _ _ b k (failed _ _ _ _ _ _) e = e
Step-kind self _ _ b k (key_added _ _ _ _ _ _ _ _) e = e
Step-kind self _ _ b k (key_refused _ _ _ _ _ _ _ _) e = e
Step-kind self _ _ b k (departed _ _ _ _ _) e = e
Step-kind self _ _ b k (panicked _ _ _ _ _ _ _ _ _) e = e

-- What is kept of the registry.
record IsSound (b : AccountId) (s : Registry) : Type 0 where
  tally : Tally b s
  capped : IsCapped b s
  traced : AllTraced s

Step-IsSound :
    (self admin : AccountId) (b : AccountId) (w v : World)
    → (r : Reach self (start admin) w) → AllAdded self (start admin) w r
    → Step self w v
    → NoDots w.registry
    → IsSound b w.registry
    → IsSound b v.registry
Step-IsSound self admin b _ _ r fine (called w env op t p h typed) plain i = record {
  tally = call-Tally env b op w.registry t p h i.capped i.tally;
  capped = call-IsCapped env b op w.registry t p h typed i.capped;
  traced = call-AllTraced env op w.registry t p h i.traced;
}
Step-IsSound self admin b _ _ r fine (resolved w env e before cb after t p split h) plain i =
    record {
      tally =
          resolve-Tally env e b cb w.registry t p h (traced-IsRead w.registry i.traced plain)
            (λ key. omega (
              arith,
              entered_exactly self admin w key r fine,
              ap (total (owes key)) split,
              total-append (owes key) before (Pending.answered e.success cb ∷ after),
            ))
            i.tally;
      capped = resolve-IsCapped env e b cb w.registry t p h i.capped;
      traced = resolve-AllTraced env e cb w.registry t p h i.traced;
    }
Step-IsSound self admin b _ _ r fine (created _ _ _ _ _ _ _ _ _ _ _ _ _ _ _ _ _) plain i = i
Step-IsSound self admin b _ _ r fine (executed _ _ _ _ _ _ _ _ _) plain i = i
Step-IsSound self admin b _ _ r fine (failed _ _ _ _ _ _) plain i = i
Step-IsSound self admin b _ _ r fine (key_added _ _ _ _ _ _ _ _) plain i = i
Step-IsSound self admin b _ _ r fine (key_refused _ _ _ _ _ _ _ _) plain i = i
Step-IsSound self admin b _ _ r fine (departed _ _ _ _ _) plain i = i
Step-IsSound self admin b _ _ r fine (panicked _ _ _ _ _ _ _ _ _) plain i = i

start-IsSound : (admin b : AccountId) → IsSound b (start admin).registry
unfolding get
start-IsSound admin b = record {
  tally = record { is_map = tt; none_yet = λ n. refl; counted = refl };
  capped = record { everyone = omega arith; own = omega arith };
  traced = λ key x e. absurd cc;
}

all-IsSound :
    (self admin b : AccountId) (w : World)
    → (r : Reach self (start admin) w) → AllAdded self (start admin) w r
    → NoDots w.registry
    → IsSound b w.registry
all-IsSound self admin b _ here fine plain = start-IsSound admin b
all-IsSound self admin b _ (next {v} {u} r st) (_, fine) plain =
    let earlier : NoDots v.registry = λ a k e. plain a k (Step-kind self v u a k st e) in
    Step-IsSound self admin b v u r fine st earlier (all-IsSound self admin b v r fine earlier)

-- As long as no TLA is registered whose id has a dot, and no addition of a key to an account that is
-- exported has failed (`AllAdded`), the registry's count of the names of a business
-- TLA is the number of its entries, whatever calls and callbacks come in whatever order.
pub business_count_exact :
    (self admin b : AccountId) (w : World) (tla : TlaEntry)
    → (r : Reach self (start admin) w) → AllAdded self (start admin) w r
    → NoDots w.registry
    → get b w.registry.tlas ≡ some tla
    → tla.tla_type ≡ TlaType.business
    → get_business_sub_count b w.registry ≡ sum_by (under b) w.registry.sub_accounts
unfolding get_business_sub_count
business_count_exact self admin b w tla r fine plain there business =
    ground (arith, (all-IsSound self admin b w r fine plain).tally.counted, there, business)
