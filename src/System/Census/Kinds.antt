-- ===== src/System/Census/Kinds.antt =====
-- A TLA keeps the type that it is registered with.
use hos_tla.Base.{
  ◌≡◌, refl, ap, ◌∙◌, arith, add_u64, max, Bool, true, false, Option, some, eq_iff, ok,
  Option-cases, inl, inr,
}
use hos_tla.Base.Maps.{get, contains_key, get-insert}
use hos_tla.Types.{AccountId, TlaType, TlaStatus, PremiumCategory, TlaEntry, one_year_ns}
use hos_tla.Registry.{Callback, Env, Promise, Registry}
use hos_tla.Admin.{register_tla, suspend_tla, unsuspend_tla, activate_open_tla}
use hos_tla.Rental.{activate_tla, renew_tla}
use hos_tla.System.{Op, call, Ending, resolve}
use hos_tla.System.Census.{kind, type_of}

abbrev is_tla_op : Op → Bool
is_tla_op (Op.register_tla _ _ _ _) = true
is_tla_op (Op.suspend_tla _) = true
is_tla_op (Op.unsuspend_tla _) = true
is_tla_op (Op.activate_open_tla _) = true
is_tla_op (Op.activate_tla _) = true
is_tla_op (Op.renew_tla _) = true
is_tla_op _ = false

call-same_tlas :
    (env : Env) (op : Op) (s t : Registry) (p : Option Promise)
    → is_tla_op op ≡ false
    → call env op s ≡ ok (t, p)
    → t.tlas ≡ s.tlas
unfolding call
call-same_tlas env Op.pause s t p u h = ground arith
call-same_tlas env _ s t p u h = ground arith

module _ (env : Env) (a b : AccountId) (s t : Registry) where
  suspend-kind : suspend_tla env a s ≡ ok t → kind b t ≡ kind b s
  unfolding suspend_tla
  suspend-kind h = elim (Option-cases (get a s.tlas)) [
    | inl e ↦ ground arith
    | inr (x, e) ↦
        ground
          (arith, eq_iff a b, get-insert a b (record x { status = TlaStatus.suspended }) s.tlas)
  ]

  unsuspend-kind : unsuspend_tla env a s ≡ ok t → kind b t ≡ kind b s
  unfolding unsuspend_tla
  unsuspend-kind h = elim (Option-cases (get a s.tlas)) [
    | inl e ↦ ground arith
    | inr (x, e) ↦
        ground (arith, eq_iff a b, get-insert a b (record x { status = TlaStatus.active }) s.tlas)
  ]

  open-kind : activate_open_tla env a s ≡ ok t → kind b t ≡ kind b s
  unfolding activate_open_tla
  open-kind h = elim (Option-cases (get a s.tlas)) [
    | inl e ↦ ground arith
    | inr (x, e) ↦
        let now = env.block_timestamp in
        let y = record x {
          status = TlaStatus.active;
          activated_at = now;
          expires_at = add_u64 now one_year_ns;
        } in
        ground (arith, eq_iff a b, get-insert a b y s.tlas)
  ]

  activate-kind : activate_tla env a s ≡ ok t → kind b t ≡ kind b s
  unfolding activate_tla
  activate-kind h = elim (Option-cases (get a s.tlas)) [
    | inl e ↦ ground arith
    | inr (x, e) ↦
        let now = env.block_timestamp in
        let y = record x {
          status = TlaStatus.active;
          activated_at = now;
          expires_at = add_u64 now one_year_ns;
        } in
        ground (arith, eq_iff a b, get-insert a b y s.tlas)
  ]

  renew-kind : renew_tla env a s ≡ ok t → kind b t ≡ kind b s
  unfolding renew_tla
  renew-kind h = elim (Option-cases (get a s.tlas)) [
    | inl e ↦ ground arith
    | inr (x, e) ↦
        let y = record x {
          expires_at = add_u64 (max env.block_timestamp x.expires_at) one_year_ns;
        } in
        ground (arith, eq_iff a b, get-insert a b y s.tlas)
  ]

  register-kind :
      (ty : TlaType) (c : PremiumCategory) (l : Option AccountId) (k : TlaType)
      → register_tla env a ty c l s ≡ ok t
      → kind b s ≡ some k
      → kind b t ≡ some k
  unfolding register_tla contains_key
  register-kind ty c l k h e =
      let y : TlaEntry = record {
        tla_type = ty;
        status = TlaStatus.registered;
        licensee = l;
        premium_category = c;
        activated_at = 0;
        expires_at = 0;
      } in
      ground (arith, eq_iff a b, get-insert a b y s.tlas)

-- No call changes the type of a TLA that is registered.
pub call-kind :
    (env : Env) (b : AccountId) (op : Op) (s t : Registry) (p : Option Promise) (k : TlaType)
    → call env op s ≡ ok (t, p)
    → kind b s ≡ some k
    → kind b t ≡ some k
unfolding call
call-kind env b (Op.register_tla a ty c l) s t p k h e =
    register-kind env a b s t ty c l k (ground arith) e
call-kind env b (Op.suspend_tla a) s t p k h e = suspend-kind env a b s t (ground arith) ∙ e
call-kind env b (Op.unsuspend_tla a) s t p k h e = unsuspend-kind env a b s t (ground arith) ∙ e
call-kind env b (Op.activate_open_tla a) s t p k h e = open-kind env a b s t (ground arith) ∙ e
call-kind env b (Op.activate_tla a) s t p k h e = activate-kind env a b s t (ground arith) ∙ e
call-kind env b (Op.renew_tla a) s t p k h e = renew-kind env a b s t (ground arith) ∙ e
call-kind env b op s t p k h e =
    ap (λ m. type_of (get b m)) (call-same_tlas env op s t p refl h) ∙ e

pub resolve-kind :
    (env : Env) (e : Ending) (b : AccountId) (cb : Callback) (s t : Registry) (p : Option Promise)
    → resolve env e cb s ≡ ok (t, p)
    → kind b t ≡ kind b s
unfolding resolve
resolve-kind env e b (Callback.on_claim_refund_settled c n) s t p h = ground arith
resolve-kind env e b _ s t p h = ground arith
