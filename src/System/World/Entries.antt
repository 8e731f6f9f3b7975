-- ===== src/System/World/Entries.antt =====
-- What the calls and the callbacks do to the entry of one name.
use hos_tla.Base.{
  ◌+◌, ◌≤◌, ◌≡◌, Bool, true, false, Option, arith, Text, if◌then◌else◌, ok, err, is_some,
}
use hos_tla.Base.Maps.{get}
use hos_tla.Registry.{ContractError, Callback, Promise, Registry, Env}
use hos_tla.Reclaim.{on_balances_checked}
use hos_tla.Rental.{on_sub_account_created}
use hos_tla.Marketplace.{settle_transfer}
use hos_tla.Marketplace.Sale.{on_buy_balances_checked}
use hos_tla.System.{Op, call, Ending, resolve}
use hos_tla.System.Slots.{Slot, perform, action_of, action_after}
use hos_tla.System.Slots.Refinement.{Refines, call-Refines, resolve-slot}
use hos_tla.System.World.{Pending, requests}
use hos_tla.System.World.Requests.{owes, entered}
use hos_tla.System.World.Launches.{Launches, enters}

entered-Refines :
    (env : Env) (key : Text) (op : Op) (s t : Registry)
    → Refines env.predecessor env.block_timestamp key (action_of env op key) s t
    → entered key t ≡ entered key s + enters key op
entered-Refines env key (Op.rent_sub_account a n k w) s t (e, may) = ground (arith, e, may)
entered-Refines env key (Op.renew_sub_account a n) s t (e, may) = ground (arith, e)
entered-Refines env key (Op.set_main_wallet a n w) s t (e, may) = ground (arith, e)
entered-Refines env key (Op.schedule_retraction a n) s t (e, may) = ground (arith, e)
entered-Refines env key (Op.cancel_retraction a n) s t (e, may) = ground (arith, e)
entered-Refines env key op s t (e, may) = ground (arith, e)

-- A call enters a name exactly if it owes it.
pub call-entered :
    (env : Env) (key : Text) (op : Op) (s t : Registry) (p : Option Promise)
    → call env op s ≡ ok (t, p)
    → entered key t ≡ entered key s + enters key op
call-entered env key op s t p h = entered-Refines env key op s t (call-Refines env key op s t p h)

performed :
    (key : Text) (success : Bool) (cb : Callback) (before after : Slot)
    → after ≡ perform (action_after success cb key) before
    → owes key (Pending.answered success cb) ≤ (if is_some before then 1 else 0)
    → (if is_some after then 1 else 0) + owes key (Pending.answered success cb)
      ≡ (if is_some before then 1 else 0)
performed key true (Callback.on_reclaim_finalized a n d) before after e le = ground arith
performed key true (Callback.on_export_settled a n) before after e le = ground arith
performed key true (Callback.on_sub_account_sold a n b d q) before after e le = ground arith
performed key true _ before after e le = ground arith
performed key false (Callback.on_sub_account_created a n w r d) before after e le = ground arith
performed key false _ before after e le = ground arith

-- A callback takes the entry away that it owes.
pub resolve-entered :
    (env : Env) (e : Ending) (key : Text) (cb : Callback) (s t : Registry) (p : Option Promise)
    → resolve env e cb s ≡ ok (t, p)
    → owes key (Pending.answered e.success cb) ≤ entered key s
    → entered key t + owes key (Pending.answered e.success cb) ≡ entered key s
resolve-entered env e key cb s t p h le =
    performed key e.success cb (get key s.sub_accounts) (get key t.sub_accounts)
      (resolve-slot env e key cb s t p h) le

pub panicked-owes :
    (env : Env) (e : Ending) (key : Text) (cb : Callback) (s : Registry) (c : ContractError)
    → resolve env e cb s ≡ err c
    → owes key (Pending.answered e.success cb) ≡ 0
unfolding resolve on_sub_account_created
panicked-owes env e key (Callback.on_sub_account_created a n w r d) s c h = ground arith
panicked-owes env e key (Callback.on_reclaim_finalized a n d) s c h = absurd (ground arith)
panicked-owes env e key (Callback.on_export_settled a n) s c h = absurd (ground arith)
panicked-owes env e key _ s c h = ground arith

pub resolve-Launches :
    (env : Env) (e : Ending) (key : Text) (cb : Callback) (s t : Registry) (p : Option Promise)
    → resolve env e cb s ≡ ok (t, p)
    → Launches key 0 (requests p)
unfolding resolve on_balances_checked on_buy_balances_checked settle_transfer
resolve-Launches env e key (Callback.on_claim_refund_settled c n) s t p h = ground arith
resolve-Launches env e key _ s t p h = ground arith
