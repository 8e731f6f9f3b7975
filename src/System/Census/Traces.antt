-- ===== src/System/Census/Traces.antt =====
-- Every entry stands under the key of a valid name and of a TLA that is registered.
use hos_tla.Base.{
  ◌==◌, ◌≡◌, refl, sym, ◌∙◌, Bool, true, false, arith, Text, Option, none, some, eq_iff, ok,
  Result-cases, Bool-cases, inl, inr,
}
use hos_tla.Base.Maps.{get}
use hos_tla.Types.{AccountId, PublicKey, TlaType, SubAccountEntry}
use hos_tla.Types.Names.{sub_account_key, all_name_bytes}
use hos_tla.Types.Names.Keys.{no_dot, one_reading, valid-all_name_bytes}
use hos_tla.Registry.{Env, Registry, Promise, Callback}
use hos_tla.Rental.{rent_sub_account}
use hos_tla.Rental.Admission.{rental_admitted}
use hos_tla.System.{Op, call, Ending, resolve}
use hos_tla.System.Slots.{Slot, Action, perform, action_of, action_after}
use hos_tla.System.Slots.Refinement.{call-Refines, resolve-slot}
use hos_tla.System.Census.{kind}
use hos_tla.System.Census.Kinds.{call-kind, resolve-kind}
use hos_tla.System.Census.Callbacks.{IsRead}

pub record IsTraced (key : Text) (x : SubAccountEntry) (s : Registry) : Type 0 where
  pub name : Text
  pub at_name : key ≡ sub_account_key x.tla_id name
  pub valid : all_name_bytes name ≡ true
  pub type : TlaType
  pub registered : kind x.tla_id s ≡ some type

abbrev pub AllTraced : Registry → Type 0
AllTraced s =
    (key : Text) (x : SubAccountEntry) → get key s.sub_accounts ≡ some x → IsTraced key x s

abbrev is_take : Option Action → Bool
is_take (some (Action.take _)) = true
is_take _ = false

-- Nothing but a rental puts an entry of another TLA in.
kept_tla :
    (a : Option Action) (before after : Slot) (x : SubAccountEntry)
    → is_take a ≡ false
    → after ≡ perform a before
    → after ≡ some x
    → (y : SubAccountEntry) × (before ≡ some y) × (y.tla_id ≡ x.tla_id)
kept_tla none before after x u e f = (x, (sym e ∙ f), refl)
kept_tla (some a) none after x u e f = absurd (ground arith)
kept_tla (some (Action.take n)) (some y) after x u e f = absurd cc
kept_tla (some a) (some y) after x u e f = (y, refl, ground arith)

moved-IsTraced :
    (key : Text) (x y : SubAccountEntry) (s t : Registry)
    → y.tla_id ≡ x.tla_id
    → ((a : AccountId) (k : TlaType) → kind a s ≡ some k → kind a t ≡ some k)
    → IsTraced key y s
    → IsTraced key x t
moved-IsTraced key x y s t same kept r = record {
  name = r.name;
  at_name = rw (← same) r.at_name;
  valid = r.valid;
  type = r.type;
  registered = kept x.tla_id r.type (rw (← same) r.registered);
}

abbrev is_rental : Op → Bool
is_rental (Op.rent_sub_account _ _ _ _) = true
is_rental _ = false

no_rental :
    (env : Env) (op : Op) (key : Text)
    → is_rental op ≡ false
    → is_take (action_of env op key) ≡ false
no_rental env op key u = ground arith

no_callback :
    (success : Bool) (cb : Callback) (key : Text) → is_take (action_after success cb key) ≡ false
no_callback success cb key = ground arith

-- The step on the slot of one name, if it is no rental.
kept-IsTraced :
    (a : Option Action) (key : Text) (x : SubAccountEntry) (s t : Registry)
    → is_take a ≡ false
    → get key t.sub_accounts ≡ perform a (get key s.sub_accounts)
    → ((b : AccountId) (k : TlaType) → kind b s ≡ some k → kind b t ≡ some k)
    → AllTraced s
    → get key t.sub_accounts ≡ some x
    → IsTraced key x t
kept-IsTraced a key x s t u e kept r there =
    let (y, before, same) =
      kept_tla a (get key s.sub_accounts) (get key t.sub_accounts) x u e there in
    moved-IsTraced key x y s t same kept (r key y before)

rental-AllTraced :
    (env : Env) (tla name : Text) (k : PublicKey) (w : AccountId) (s t : Registry)
    (p : Option Promise)
    → call env (Op.rent_sub_account tla name k w) s ≡ ok (t, p)
    → AllTraced s
    → AllTraced t
unfolding call
rental-AllTraced env tla name k w s t p h r key x there =
    let op = Op.rent_sub_account tla name k w in
    let at = sub_account_key tla name in
    let kept =
      λ (b : AccountId) (j : TlaType) (e : kind b s ≡ some j). call-kind env b op s t p j h e in
    let step = (call-Refines env key op s t p h).0 in
    elim (Bool-cases (at == key)) [
      | inr other ↦ kept-IsTraced none key x s t refl (ground (arith, step)) kept r there
      | inl here ↦ elim (Result-cases (rent_sub_account env tla name k w s)) [
        | inr (d, e) ↦ absurd (ground arith)
        | inl (o, e) ↦
            let good = rental_admitted env tla name k w s o e in
            let under : x.tla_id ≡ tla =
              ground (arith, step, (call-Refines env key op s t p h).1) in
            record {
              name = name;
              at_name = rw under (sym ((eq_iff at key).0 here));
              valid = valid-all_name_bytes name good.good_name;
              type = good.tla.tla_type;
              registered = rw under (kept tla good.tla.tla_type (ground (arith, good.tla_found)));
            }
      ]
    ]

pub call-AllTraced :
    (env : Env) (op : Op) (s t : Registry) (p : Option Promise)
    → call env op s ≡ ok (t, p)
    → AllTraced s
    → AllTraced t
call-AllTraced env (Op.rent_sub_account tla n k w) s t p h r =
    rental-AllTraced env tla n k w s t p h r
call-AllTraced env op s t p h r = λ key x there.
    kept-IsTraced (action_of env op key) key x s t (no_rental env op key refl)
      (call-Refines env key op s t p h).0 (λ b k e. call-kind env b op s t p k h e) r there

pub resolve-AllTraced :
    (env : Env) (e : Ending) (cb : Callback) (s t : Registry) (p : Option Promise)
    → resolve env e cb s ≡ ok (t, p)
    → AllTraced s
    → AllTraced t
resolve-AllTraced env e cb s t p h r key x there =
    kept-IsTraced (action_after e.success cb key) key x s t (no_callback e.success cb key)
      (resolve-slot env e key cb s t p h) (λ b k a. resolve-kind env e b cb s t p h ∙ a) r there

-- No TLA that is registered has a dot in its id.
abbrev pub NoDots : Registry → Type 0
NoDots s = (a : AccountId) (k : TlaType) → kind a s ≡ some k → no_dot a ≡ true

-- Then a name can be asked for only under the TLA of its entry.
pub traced-IsRead : (s : Registry) → AllTraced s → NoDots s → IsRead s
traced-IsRead s r plain tla name x there =
    let c = r (sub_account_key tla name) x there in
    sym
      (one_reading tla x.tla_id name c.name c.valid (plain x.tla_id c.type c.registered) c.at_name)
