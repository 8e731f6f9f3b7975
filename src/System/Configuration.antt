-- ===== src/System/Configuration.antt =====
-- What holds of the admins, the allowlists and the fees in every state that the contract reaches.
use hos_tla.Base.{◌≡◌, ◌≤◌, ◌<◌, Option, arith, length, ok}
use hos_tla.Base.Sets.{
  contains, IsSetList, add-IsSetList, delete-IsSetList, length-add, length-delete,
}
use hos_tla.Types.{AccountId}
use hos_tla.Registry.{Callback, Env, Registry, Promise}
use hos_tla.Admin.{max_allowlist_size}
use hos_tla.System.{Op, call, Ending, resolve}
use hos_tla.System.Network.{
  Network, start, Step, called, refused, resolved, panicked, Reach, Reach_induction,
}

pub record IsConfigured (s : Registry) : Type 0 where
  pub some_admin : 0 < length s.admins
  pub admins_once : IsSetList s.admins
  pub ft_bounded : length s.ft_allowlist ≤ max_allowlist_size
  pub nft_bounded : length s.nft_allowlist ≤ max_allowlist_size
  pub commission_bounded : s.fee_config.resale_commission_bps ≤ 10_000
  pub deposit_positive : 0 < s.fee_config.account_creation_deposit

call-IsConfigured :
    (env : Env) (op : Op) (s t : Registry) (p : Option Promise)
    → IsConfigured s
    → call env op s ≡ ok (t, p)
    → IsConfigured t
unfolding call
call-IsConfigured env (Op.add_admin a) s t p k h =
    ground (arith, k.admins_once, add-IsSetList a s.admins k.admins_once, length-add a s.admins)
call-IsConfigured env (Op.remove_admin a) s t p k h =
    ground
      (arith, k.admins_once, delete-IsSetList a s.admins k.admins_once, length-delete a s.admins)
call-IsConfigured env (Op.add_ft_allowlist a) s t p k h =
    ground (arith, k.admins_once, length-add a s.ft_allowlist)
call-IsConfigured env (Op.add_nft_allowlist a) s t p k h =
    ground (arith, k.admins_once, length-add a s.nft_allowlist)
call-IsConfigured env (Op.remove_ft_allowlist a) s t p k h =
    ground (arith, k.admins_once, length-delete a s.ft_allowlist)
call-IsConfigured env (Op.remove_nft_allowlist a) s t p k h =
    ground (arith, k.admins_once, length-delete a s.nft_allowlist)
call-IsConfigured env _ s t p k h = ground (arith, k.admins_once)

-- The fields that no callback writes.
record SameAdmins (s t : Registry) : Type 0 where
  admins : t.admins ≡ s.admins
  ft : t.ft_allowlist ≡ s.ft_allowlist
  nft : t.nft_allowlist ≡ s.nft_allowlist
  config : t.fee_config ≡ s.fee_config

resolve-SameAdmins :
    (env : Env) (e : Ending) (cb : Callback) (s t : Registry) (p : Option Promise)
    → resolve env e cb s ≡ ok (t, p)
    → SameAdmins s t
unfolding resolve
resolve-SameAdmins env e (Callback.on_claim_refund_settled c n) s t p h = ground arith
resolve-SameAdmins env e _ s t p h = ground arith

SameAdmins-IsConfigured : (s t : Registry) → SameAdmins s t → IsConfigured s → IsConfigured t
SameAdmins-IsConfigured s t e k = record {
  some_admin = rw e.admins k.some_admin;
  admins_once = rw e.admins k.admins_once;
  ft_bounded = rw e.ft k.ft_bounded;
  nft_bounded = rw e.nft k.nft_bounded;
  commission_bounded = rw e.config k.commission_bounded;
  deposit_positive = rw e.config k.deposit_positive;
}

Step-IsConfigured : (n m : Network) → Step n m → IsConfigured n.registry → IsConfigured m.registry
Step-IsConfigured _ _ (called n env op t p h timely fits) k =
    call-IsConfigured env op n.registry t p k h
Step-IsConfigured _ _ (refused n env op c h) k = k
Step-IsConfigured _ _ (resolved n env e before f after t p split h) k =
    SameAdmins-IsConfigured n.registry t (resolve-SameAdmins env e f.callback n.registry t p h) k
Step-IsConfigured _ _ (panicked n env e before f after c split h) k = k

start-IsConfigured : (admin : AccountId) → IsConfigured (start admin).registry
unfolding contains
start-IsConfigured admin = ground arith

-- In every state that the deployed contract reaches there is an admin and none twice, no allowlist
-- has more than 40 tokens, the commission is at most the whole price, and a rental sends along a
-- positive deposit.
pub always-IsConfigured :
    (admin : AccountId) (n : Network) → Reach (start admin) n → IsConfigured n.registry
always-IsConfigured admin n r =
    Reach_induction (λ m. IsConfigured m.registry) Step-IsConfigured (start-IsConfigured admin) r
