-- ===== src/System/Network.antt =====
-- The registry among calls and callbacks in any order. A promise is in flight until its callback
-- runs, and the callbacks run in any order.
use hos_tla.Base.{
  ℕ, ◌+◌, ◌-◌, ◌≤◌, ◌<◌, ◌≡◌, Option, none, some, List, [], ◌∷◌, ◌++◌, u128_max, ok, err,
}
use hos_tla.Types.{AccountId, FeeConfig}
use hos_tla.Registry.{ContractError, Call, Callback, Promise, Env, Registry, new}
use hos_tla.System.{Op, call, Ending, resolve}
use hos_tla.System.Ledger.{spent}

-- A callback to come, and the money that went out with the calls before it.
pub record Flight : Type 0 where
  pub callback : Callback
  pub sent : ℕ

-- The money that a call takes along.
abbrev pub sent_with : Call → ℕ
sent_with (Call.transfer _ n) = n
sent_with (Call.create_sub_account _ _ _ deposit) = deposit
sent_with _ = 0

abbrev pub sent_by_calls : List (Call × ℕ) → ℕ
sent_by_calls [] = 0
sent_by_calls ((c, _) ∷ rest) = sent_with c + sent_by_calls rest

abbrev flight_of : ℕ → Option (Callback × ℕ) → List Flight
flight_of sent none = []
flight_of sent (some (cb, _)) = record { callback = cb; sent = sent } ∷ []

abbrev pub launch : Option Promise → List Flight
launch none = []
launch (some p) = flight_of (sent_by_calls p.calls) p.callback

-- `holdings` is the money of the registry's account, what is out with promises in flight included
-- and what the account pays for storage left out.
pub record Network : Type 0 where
  pub registry : Registry
  pub in_flight : List Flight
  pub holdings : ℕ

abbrev pub start : AccountId → Network
start admin = record { registry = new admin; in_flight = []; holdings = 0 }

-- A rental in flight took along no more than the creation deposit of a configuration.
abbrev pub CoversOne : FeeConfig → ℕ → Callback → Type 0
CoversOne config sent (Callback.on_sub_account_created _ _ _ _ _) =
    sent ≤ config.account_creation_deposit
CoversOne config sent _ = Unit

abbrev pub Covers : FeeConfig → List Flight → Type 0
Covers config [] = Unit
Covers config (f ∷ fs) = CoversOne config f.sent f.callback × Covers config fs

-- What an admin has to see to at a change of the fees: no rental is in flight that took along a
-- larger creation deposit than the new one. Nothing is asked at other calls.
abbrev pub IsTimely : Op → List Flight → Type 0
IsTimely (Op.update_fee_config config) fs = Covers config fs
IsTimely _ fs = Unit

-- One call or callback. A refused call changes nothing, and its deposit goes back; a callback that
-- panics is over all the same. No amount of money reaches the top of `u128`.
pub data Step : Network → Network → Type 0 where
  called :
      (n : Network) (env : Env) (op : Op) (t : Registry) (p : Option Promise)
      → call env op n.registry ≡ ok (t, p)
      → IsTimely op n.in_flight
      → n.holdings + env.attached_deposit < u128_max
      → Step n (record {
        registry = t;
        in_flight = launch p ++ n.in_flight;
        holdings = n.holdings + env.attached_deposit;
      })
  refused :
      (n : Network) (env : Env) (op : Op) (c : ContractError)
      → call env op n.registry ≡ err c
      → Step n n
  resolved :
      (n : Network) (env : Env) (e : Ending) (before : List Flight) (f : Flight)
      (after : List Flight) (t : Registry) (p : Option Promise)
      → n.in_flight ≡ before ++ f ∷ after
      → resolve env e f.callback n.registry ≡ ok (t, p)
      → Step n (record {
        registry = t;
        in_flight = launch p ++ (before ++ after);
        holdings = n.holdings - spent e.success f.sent;
      })
  panicked :
      (n : Network) (env : Env) (e : Ending) (before : List Flight) (f : Flight)
      (after : List Flight) (c : ContractError)
      → n.in_flight ≡ before ++ f ∷ after
      → resolve env e f.callback n.registry ≡ err c
      → Step n (record {
        registry = n.registry;
        in_flight = before ++ after;
        holdings = n.holdings - spent e.success f.sent;
      })

pub data Reach (n : Network) : Network → Type 0 where
  here : Reach n n
  next : {m k : Network} → Reach n m → Step m k → Reach n k

-- What every step keeps holds wherever the network gets.
pub Reach_induction {ℓ} :
    (P : Network → Type ℓ) {n m : Network}
    → ((j k : Network) → Step j k → P j → P k)
    → P n
    → Reach n m
    → P m
Reach_induction P keep h here = h
Reach_induction P keep h (next r st) = keep _ _ st (Reach_induction P keep h r)
