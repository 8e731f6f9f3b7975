-- ===== src/System/World/Orphans.antt =====
-- An export whose key could not be added.
use hos_tla.Base.{
  ◌<◌, ◌≡◌, ◌≢◌, ap, true, false, none, some, List, [], ◌∷◌, ◌++◌, arith, Text, eq_refl, ok,
  Option-cases, inl, inr,
}
use hos_tla.Base.Maps.{get, insert, contains_key, get-insert_self, get-remove_self}
use hos_tla.Types.{AccountId}
use hos_tla.Types.Names.{sub_account_key}
use hos_tla.Registry.{Callback, Promise, Registry, Env}
use hos_tla.Reclaim.{export_sub_account, on_export_settled, reclaim_finalize, reclaim_sweep_ft}
use hos_tla.SubAccountLocker.{SubState, SubAccountLocker, export_ending, on_export_resolved}
use hos_tla.System.{resolve}
use hos_tla.System.World.{
  World, Pending, start, Step, key_refused, Reach, AllAdded, succeeded, left_by,
}
use hos_tla.System.World.Accounts.{exporting}
use hos_tla.System.World.Agreement.{all-Agrees}
use hos_tla.System.World.Requests.{adds, total, total-append}

-- The locker's callback has run for an addition that failed, and the registry's callback is to run
-- with how the locker's ended.
abbrev pub refused :
    List Pending → AccountId → Callback → List Pending → SubAccountLocker → World → World
refused before a cb after l w =
    let ending = export_ending false l in
    record w {
      accounts = insert a (left_by l ending) w.accounts;
      pending = before ++ Pending.answered (succeeded ending) cb ∷ after;
    }

module _ (self admin : AccountId) (w : World) (before after : List Pending) (tla name : Text)
    (r : Reach self (start admin) w) (fine : AllAdded self (start admin) w r)
    (split : w.pending
      ≡ before
        ++ Pending.adding (sub_account_key tla name) (Callback.on_export_settled tla name)
          ∷ after) where
  busy : 0 < exporting (sub_account_key tla name) w.accounts
  busy =
      let key = sub_account_key tla name in
      let q = Pending.adding key (Callback.on_export_settled tla name) in
      ground (
        arith,
        (all-Agrees self admin w r fine key).adding,
        ap (total (adds key)) split,
        total-append (adds key) before (q ∷ after),
        eq_refl key,
      )

  is_entered : contains_key (sub_account_key tla name) w.registry.sub_accounts ≡ true
  unfolding contains_key
  is_entered =
      ground (arith, (all-Agrees self admin w r fine (sub_account_key tla name)).one_each, busy)

-- The flaw: the locker's callback returns normally also if the key could not be added, so that the
-- export as a whole counts as a success. In every state of the World, reached without such a
-- failure, in which an export is adding its key, the registry has entered the account; if the
-- addition then fails, the locker holds the
-- account again, but the registry's callback takes the entry away, and after that neither an export
-- nor a sweep nor a deletion of the account can be asked for.
pub failed_export_orphans :
    (self admin : AccountId) (w : World) (before after : List Pending) (tla name : Text)
    (env later : Env) (ft : AccountId) (p : Promise)
    → (r : Reach self (start admin) w) → AllAdded self (start admin) w r
    → w.pending
      ≡ before
        ++ Pending.adding (sub_account_key tla name) (Callback.on_export_settled tla name) ∷ after
    → let key = sub_account_key tla name in
      let cb = Callback.on_export_settled tla name in
      (contains_key key w.registry.sub_accounts ≡ true)
      × ((l : SubAccountLocker) × (get key w.accounts ≡ some l)
          × Step self w (refused before key cb after l w)
          × ((m : SubAccountLocker) × (get key (refused before key cb after l w).accounts ≡ some m)
              × (m.state ≡ SubState.held))
          × ((t : Registry) × (resolve env
                  (record { success = succeeded (export_ending false l); results = [] })
                  cb
                  (refused before key cb after l w).registry
                ≡ ok (t, none))
              × (get key t.sub_accounts ≡ none)
              × (export_sub_account later tla name t ≢ ok p)
              × (reclaim_sweep_ft later tla name ft t ≢ ok p)
              × (reclaim_finalize later tla name t ≢ ok p)))
unfolding export_ending on_export_resolved resolve on_export_settled export_sub_account
    reclaim_sweep_ft reclaim_finalize
failed_export_orphans self admin w before after tla name env later ft p r fine split =
    let key = sub_account_key tla name in
    let there = is_entered self admin w before after tla name r fine split in
    let gone = get-remove_self key w.registry.sub_accounts in
    elim (Option-cases (get key w.accounts)) [
      | inl e ↦ absurd (ground (arith, busy self admin w before after tla name r fine split, e))
      | inr (l, e) ↦
          let t = on_export_settled true tla name w.registry in
          (
            there,
            (
              l,
              e,
              key_refused w before key (Callback.on_export_settled tla name) after l split e,
              (_, get-insert_self key (on_export_resolved false l) w.accounts, ground arith),
              (
                t,
                ground arith,
                ground (arith, gone, there),
                λ h. ground (arith, gone, there),
                λ h. ground (arith, gone, there),
                λ h. ground (arith, gone, there),
              ),
            ),
          )
    ]
