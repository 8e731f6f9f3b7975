-- ===== src/System/Gates.antt =====
-- Who may call what, and when, over all public methods.
use hos_tla.Base.{◌≡◌, ◌≢◌, Bool, true, false, Option, arith, ok, err}
use hos_tla.Base.Sets.{contains}
use hos_tla.Registry.{ContractError, Env, Registry, Promise}
use hos_tla.System.{Op, call}

-- The methods that `assert_admin` guards.
abbrev pub is_admin_op : Op → Bool
is_admin_op Op.pause = true
is_admin_op Op.unpause = true
is_admin_op Op.migrate = true
is_admin_op (Op.register_tla _ _ _ _) = true
is_admin_op (Op.suspend_tla _) = true
is_admin_op (Op.unsuspend_tla _) = true
is_admin_op (Op.activate_open_tla _) = true
is_admin_op (Op.add_admin _) = true
is_admin_op (Op.remove_admin _) = true
is_admin_op (Op.update_fee_config _) = true
is_admin_op (Op.withdraw _ _) = true
is_admin_op (Op.add_ft_allowlist _) = true
is_admin_op (Op.remove_ft_allowlist _) = true
is_admin_op (Op.add_nft_allowlist _) = true
is_admin_op (Op.remove_nft_allowlist _) = true
is_admin_op (Op.set_business_sub_cap _ _) = true
is_admin_op (Op.admin_clear_mother _) = true
is_admin_op (Op.export_sub_account _ _) = true
is_admin_op (Op.resale_unlock _ _) = true
is_admin_op (Op.resale_abort _) = true
is_admin_op _ = false

-- The methods that `assert_not_paused` guards: all others but the claim of a refund.
abbrev pub is_pausable : Op → Bool
is_pausable (Op.schedule_retraction _ _) = true
is_pausable (Op.cancel_retraction _ _) = true
is_pausable (Op.set_mother _) = true
is_pausable (Op.activate_tla _) = true
is_pausable (Op.renew_tla _) = true
is_pausable (Op.rent_sub_account _ _ _ _) = true
is_pausable (Op.set_main_wallet _ _ _) = true
is_pausable (Op.renew_sub_account _ _) = true
is_pausable (Op.reclaim_sweep_ft _ _ _) = true
is_pausable (Op.reclaim_finalize _ _) = true
is_pausable (Op.list_sub_account _ _ _) = true
is_pausable (Op.unlist_sub_account _ _) = true
is_pausable (Op.accept_offer _ _ _ _) = true
is_pausable (Op.revoke_offer _ _) = true
is_pausable (Op.buy_sub_account _ _ _) = true
is_pausable _ = false

-- A method of the admins refuses everybody else, before anything else is checked.
pub admin_gate :
    (env : Env) (op : Op) (s : Registry)
    → is_admin_op op ≡ true
    → contains env.predecessor s.admins ≡ false
    → call env op s ≡ err ContractError.only_admin
unfolding call
admin_gate env Op.pause s a h = ground arith
admin_gate env _ s a h = ground arith

-- While the contract is paused, no user's method but the claim of a refund goes through.
pub pause_gate :
    (env : Env) (op : Op) (s t : Registry) (p : Option Promise)
    → is_pausable op ≡ true
    → call env op s ≡ ok (t, p)
    → s.paused ≡ false
unfolding call
pause_gate env (Op.schedule_retraction a n) s t p u h = ground arith
pause_gate env _ s t p u h = ground arith

-- The methods that want exactly one yocto attached, which an access key with limited rights
-- cannot attach.
abbrev pub is_one_yocto : Op → Bool
is_one_yocto (Op.schedule_retraction _ _) = true
is_one_yocto (Op.cancel_retraction _ _) = true
is_one_yocto (Op.set_mother _) = true
is_one_yocto (Op.set_main_wallet _ _ _) = true
is_one_yocto (Op.list_sub_account _ _ _) = true
is_one_yocto (Op.unlist_sub_account _ _) = true
is_one_yocto (Op.accept_offer _ _ _ _) = true
is_one_yocto (Op.revoke_offer _ _) = true
is_one_yocto _ = false

-- The methods that want one yocto refuse any other deposit, before anything else is checked.
pub one_yocto_gate :
    (env : Env) (op : Op) (s : Registry)
    → is_one_yocto op ≡ true
    → env.attached_deposit ≢ 1
    → call env op s ≡ err ContractError.requires_one_yocto
unfolding call
one_yocto_gate env (Op.schedule_retraction a n) s u h = ground arith
one_yocto_gate env _ s u h = ground arith
