-- ===== src/System/World/Steps.antt =====
-- Each kind of step keeps the balance of the entries and the accounts.
use hos_tla.Base.{◌+◌, ◌≡◌, ap, subst, Option, some, List, ◌∷◌, ◌++◌, arith, Text, ok, err}
use hos_tla.Base.Maps.{Map, get, remove}
use hos_tla.Types.{AccountId}
use hos_tla.Registry.{ContractError, Callback, Promise, Registry, Env}
use hos_tla.SubAccountLocker.{SubState, SubAccountLocker}
use hos_tla.System.{Op, call, Ending, resolve}
use hos_tla.System.World.{Pending, requests, World}
use hos_tla.System.World.Accounts.{controlled, exporting, Balances, departed-controlled}
use hos_tla.System.World.Requests.{
  owes, adds, total, total-append, IsFit, AllFit, AllFit-append, AllFit-split, entered,
}
use hos_tla.System.World.Launches.{call-Launches}
use hos_tla.System.World.Entries.{call-entered, resolve-entered, panicked-owes, resolve-Launches}

-- A name is entered exactly as often as its account is under control or its entry is owed.
pub record Agrees (key : Text) (w : World) : Type 0 where
  pub one_each : entered key w.registry ≡ controlled key w.accounts + total (owes key) w.pending
  pub adding : total (adds key) w.pending ≡ exporting key w.accounts
  pub fit : AllFit w.pending

module _ (key : Text) (w : World) (k : Agrees key w) where
  pub replaced-Agrees :
      (before : List Pending) (q q' : Pending) (after : List Pending) (m : Map SubAccountLocker)
      → w.pending ≡ before ++ q ∷ after
      → (IsFit q → Balances key w.accounts q m q')
      → Agrees key (record w { accounts = m; pending = before ++ q' ∷ after })
  replaced-Agrees before q q' after m split change =
      let (fits, fit, fits') = AllFit-split before q after (subst AllFit split k.fit) in
      let b = change fit in
      record {
        one_each = omega (
          arith,
          k.one_each,
          ap (total (owes key)) split,
          b.kept,
          total-append (owes key) before (q ∷ after),
          total-append (owes key) before (q' ∷ after),
        );
        adding = omega (
          arith,
          k.adding,
          ap (total (adds key)) split,
          b.added,
          total-append (adds key) before (q ∷ after),
          total-append (adds key) before (q' ∷ after),
        );
        fit = AllFit-append before (q' ∷ after) fits (b.fit, fits');
      }

  pub called-Agrees :
      (env : Env) (op : Op) (t : Registry) (p : Option Promise)
      → call env op w.registry ≡ ok (t, p)
      → Agrees key (record w { registry = t; pending = requests p ++ w.pending })
  called-Agrees env op t p h =
      let new_ones = call-Launches key env op w.registry t p h in
      record {
        one_each = omega (
          arith,
          k.one_each,
          call-entered env key op w.registry t p h,
          new_ones.owed,
          total-append (owes key) (requests p) w.pending,
        );
        adding =
            omega
              (arith, k.adding, new_ones.adding, total-append (adds key) (requests p) w.pending);
        fit = AllFit-append (requests p) w.pending new_ones.fit k.fit;
      }

  pub resolved-Agrees :
      (env : Env) (e : Ending) (before : List Pending) (cb : Callback) (after : List Pending)
      (t : Registry) (p : Option Promise)
      → w.pending ≡ before ++ Pending.answered e.success cb ∷ after
      → resolve env e cb w.registry ≡ ok (t, p)
      → Agrees key (record w { registry = t; pending = requests p ++ (before ++ after) })
  resolved-Agrees env e before cb after t p split h =
      let q = Pending.answered e.success cb in
      let (fits, _, fits') = AllFit-split before q after (subst AllFit split k.fit) in
      let owed = total-append (owes key) before (q ∷ after) in
      let here_now = ap (total (owes key)) split in
      let left =
        resolve-entered env e key cb w.registry t p h (omega (arith, k.one_each, here_now, owed)) in
      let new_ones = resolve-Launches env e key cb w.registry t p h in
      record {
        one_each = omega (
          arith,
          k.one_each,
          here_now,
          owed,
          left,
          new_ones.owed,
          total-append (owes key) before after,
          total-append (owes key) (requests p) (before ++ after),
        );
        adding = omega (
          arith,
          k.adding,
          ap (total (adds key)) split,
          new_ones.adding,
          total-append (adds key) before (q ∷ after),
          total-append (adds key) before after,
          total-append (adds key) (requests p) (before ++ after),
        );
        fit =
            AllFit-append (requests p) (before ++ after) new_ones.fit
              (AllFit-append before after fits fits');
      }

  pub panicked-Agrees :
      (env : Env) (e : Ending) (before : List Pending) (cb : Callback) (after : List Pending)
      (c : ContractError)
      → w.pending ≡ before ++ Pending.answered e.success cb ∷ after
      → resolve env e cb w.registry ≡ err c
      → Agrees key (record w { pending = before ++ after })
  panicked-Agrees env e before cb after c split h =
      let q = Pending.answered e.success cb in
      let (fits, _, fits') = AllFit-split before q after (subst AllFit split k.fit) in
      record {
        one_each = omega (
          arith,
          k.one_each,
          ap (total (owes key)) split,
          panicked-owes env e key cb w.registry c h,
          total-append (owes key) before (q ∷ after),
          total-append (owes key) before after,
        );
        adding = omega (
          arith,
          k.adding,
          ap (total (adds key)) split,
          total-append (adds key) before (q ∷ after),
          total-append (adds key) before after,
        );
        fit = AllFit-append before after fits fits';
      }

  pub departed-Agrees :
      (a : AccountId) (l : SubAccountLocker)
      → get a w.accounts ≡ some l
      → l.state ≡ SubState.exported
      → Agrees key (record w { accounts = remove a w.accounts })
  departed-Agrees a l e gone =
      let (same, idle) = departed-controlled key a l w.accounts e gone in
      record {
        one_each = omega (arith, k.one_each, same);
        adding = omega (arith, k.adding, idle);
        fit = k.fit;
      }
