-- ===== src/System/Census/Calls.antt =====
-- Every call keeps the tally of a TLA.
use hos_tla.Base.{
  ◌≡◌, refl, Bool, true, false, arith, Option, none, some, ok, Option-cases, Result-cases, inl, inr,
}
use hos_tla.Base.Maps.{get-insert, get-remove}
use hos_tla.Base.Maps.Sums.{IsMap}
use hos_tla.Types.{AccountId, TlaType}
use hos_tla.Registry.{Env, Registry, Promise}
use hos_tla.Rental.{rent_sub_account}
use hos_tla.Rental.Admission.{rental_admitted}
use hos_tla.System.{Op, IsTyped, call}
use hos_tla.System.Census.{kind, Tally, IsCapped}
use hos_tla.System.Census.Kinds.{call-kind}
use hos_tla.System.Census.Updates.{
  SameNames, renew-SameNames, wallet-SameNames, schedule-SameNames, cancel-SameNames,
}
use hos_tla.System.Census.Rentals.{rent-IsCapped, rent-Tally}

-- A call that keeps the names, the count, and the type of the TLA keeps the tally.
pub same-Tally :
    (b : AccountId) (s t : Registry)
    → Tally b s
    → SameNames b s t
    → ((k : TlaType) → kind b s ≡ some k → kind b t ≡ some k)
    → Tally b t
same-Tally b s t y same kept = elim (Option-cases (kind b s)) [
  | inl e ↦ record {
    is_map = same.is_map;
    none_yet = λ n. ground (arith, same.names, y.none_yet e);
    counted = ground (arith, same.names, same.counts, y.counted, y.none_yet e);
  }
  | inr (k, e) ↦ record {
    is_map = same.is_map;
    none_yet = λ n. absurd (ground (arith, kept k e));
    counted = ground (arith, same.names, same.counts, y.counted, kept k e);
  }
]

abbrev is_name_op : Op → Bool
is_name_op (Op.rent_sub_account _ _ _ _) = true
is_name_op (Op.renew_sub_account _ _) = true
is_name_op (Op.set_main_wallet _ _ _) = true
is_name_op (Op.schedule_retraction _ _) = true
is_name_op (Op.cancel_retraction _ _) = true
is_name_op _ = false

call-SameNames :
    (env : Env) (b : AccountId) (op : Op) (s t : Registry) (p : Option Promise)
    → is_name_op op ≡ false
    → call env op s ≡ ok (t, p)
    → IsMap s.sub_accounts
    → SameNames b s t
unfolding call
call-SameNames env b Op.pause s t p u h m = ground arith
call-SameNames env b _ s t p u h m = ground arith

pub call-Tally :
    (env : Env) (b : AccountId) (op : Op) (s t : Registry) (p : Option Promise)
    → call env op s ≡ ok (t, p)
    → IsCapped b s
    → Tally b s
    → Tally b t
unfolding call
call-Tally env b (Op.rent_sub_account tla n k w) s t p h c y =
    elim (Result-cases (rent_sub_account env tla n k w s)) [
      | inr (d, e) ↦ absurd (ground arith)
      | inl (o, e) ↦
          let same : o.state ≡ t = ground arith in
          let good = rental_admitted env tla n k w s o e in
          rw (← same) (rent-Tally env b tla n k w s o good.tla c good.tla_found e y)
    ]
call-Tally env b (Op.renew_sub_account tla n) s t p h c y =
    same-Tally b s t y (renew-SameNames env b tla n s t y.is_map (ground arith))
      (λ k e. call-kind env b (Op.renew_sub_account tla n) s t p k h e)
call-Tally env b (Op.set_main_wallet tla n w) s t p h c y =
    same-Tally b s t y (wallet-SameNames env b tla n s t y.is_map w (ground arith))
      (λ k e. call-kind env b (Op.set_main_wallet tla n w) s t p k h e)
call-Tally env b (Op.schedule_retraction tla n) s t p h c y =
    same-Tally b s t y (schedule-SameNames env b tla n s t y.is_map (ground arith))
      (λ k e. call-kind env b (Op.schedule_retraction tla n) s t p k h e)
call-Tally env b (Op.cancel_retraction tla n) s t p h c y =
    same-Tally b s t y (cancel-SameNames env b tla n s t y.is_map (ground arith))
      (λ k e. call-kind env b (Op.cancel_retraction tla n) s t p k h e)
call-Tally env b op s t p h c y =
    same-Tally b s t y (call-SameNames env b op s t p refl h y.is_map)
      (λ k e. call-kind env b op s t p k h e)

pub call-IsCapped :
    (env : Env) (b : AccountId) (op : Op) (s t : Registry) (p : Option Promise)
    → call env op s ≡ ok (t, p)
    → IsTyped op
    → IsCapped b s
    → IsCapped b t
unfolding call
call-IsCapped env b (Op.set_business_sub_cap a (some n)) s t p h f c =
    ground (arith, c.everyone, c.own, get-insert a b n s.business_sub_cap_override)
call-IsCapped env b (Op.set_business_sub_cap a none) s t p h f c =
    ground (arith, c.everyone, c.own, get-remove a b s.business_sub_cap_override)
call-IsCapped env b Op.pause s t p h f c = ground (arith, c.everyone, c.own)
call-IsCapped env b (Op.rent_sub_account tla n k w) s t p h f c =
    elim (Result-cases (rent_sub_account env tla n k w s)) [
      | inr (d, e) ↦ absurd (ground arith)
      | inl (o, e) ↦
          let same : o.state ≡ t = ground arith in
          let good = rental_admitted env tla n k w s o e in
          rw (← same) (rent-IsCapped env b tla n k w s o good.tla c good.tla_found e)
    ]
call-IsCapped env b _ s t p h f c = ground (arith, c.everyone, c.own)
