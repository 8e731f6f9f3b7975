-- ===== src/Tests/Lockers.antt =====
-- Witnesses for the lockers and the manager.
use hos_tla.Base.{◌≡◌, refl, true, [], ◌∷◌, text, text_eq, ok}
use hos_tla.Types.{PublicKey}
use hos_tla.Types.Names.{sub_account_key}
use hos_tla.SubAccountLocker.{SubState, SubAccountLocker, export, on_export_resolved, new}
use hos_tla.SubAccountLocker.Custody
use hos_tla.ResaleLocker.{LockState, ResaleLocker, unlock, abort, on_settle_resolved}
use hos_tla.ResaleLocker.OneShot
use hos_tla.Manager.{Action, Batch, create_sub_account}
use hos_tla.Manager.Creation.{added_keys, lockers, created_keyless}
use hos_tla.Tests.Scenario.{hos, fun, name, any_text}

abbrev owner_key : PublicKey
owner_key = text "ed25519:alice"

abbrev buyer_key : PublicKey
buyer_key = text "ed25519:bob"

abbrev exporting : SubAccountLocker
exporting = record { registry = hos; owner_key = owner_key; state = SubState.exporting }

abbrev exported : SubAccountLocker
exported = record exporting { state = SubState.exported }

abbrev at_export : Custody.Account
at_export = record { locker = exporting; keys = []; adding = owner_key ∷ [] }

abbrev after_export : Custody.Account
after_export = record { locker = exported; keys = owner_key ∷ []; adding = [] }

exported_account : Custody.Reach (Custody.start hos owner_key) after_export
unfolding export text_eq on_export_resolved
exported_account =
    Custody.next
      (Custody.next Custody.here
        (Custody.exported (Custody.start hos owner_key) hos exporting owner_key refl))
      (Custody.added at_export [] owner_key [] refl)

always-IsCustody_example : Custody.IsCustody after_export
always-IsCustody_example = Custody.always-IsCustody hos owner_key after_export exported_account

abbrev sale : ResaleLocker
sale = record { registry = hos; recovery_key = owner_key; state = LockState.active }

abbrev settling : ResaleLocker
settling = record sale { state = LockState.settling }

abbrev aborting : OneShot.Account
aborting = record { locker = settling; keys = []; adding = owner_key ∷ []; ended = [] }

abbrev standing : OneShot.Account
standing = record { locker = settling; keys = owner_key ∷ []; adding = []; ended = true ∷ [] }

abbrev given_back : OneShot.Account
given_back = record {
  locker = record sale { state = LockState.settled };
  keys = owner_key ∷ [];
  adding = [];
  ended = [];
}

given_back_account : OneShot.Reach (OneShot.start hos owner_key) given_back
unfolding abort text_eq on_settle_resolved
given_back_account =
    OneShot.next
      (OneShot.next
        (OneShot.next OneShot.here
          (OneShot.aborted (OneShot.start hos owner_key) hos owner_key settling refl))
        (OneShot.added aborting [] owner_key [] refl))
      (OneShot.resolved standing [] true [] refl)

always-IsOneShot_example : OneShot.IsOneShot given_back
always-IsOneShot_example = OneShot.always-IsOneShot hos owner_key given_back given_back_account

unlock_or_abort_example :
    unlock hos buyer_key sale
    ≡ ok (settling, hos_tla.ResaleLocker.Request.add_full_access_key buyer_key)
unlock_or_abort_example =
    (OneShot.unlock_or_abort hos buyer_key sale settling
        (hos_tla.ResaleLocker.Request.add_full_access_key buyer_key)).0.1
      (refl, refl, refl, refl)

abbrev manager_env : hos_tla.Manager.Env
manager_env = record {
  predecessor = hos;
  current = fun;
  attached_deposit = 100;
  is_account_id = any_text;
}

abbrev batch : Batch
batch = record {
  receiver = sub_account_key fun name;
  actions =
      Action.create_account
      ∷ Action.transfer 100
      ∷ Action.deploy_locker
      ∷ Action.init_locker hos owner_key
      ∷ [];
}

created_keyless_example :
    (hos ≡ hos) × (added_keys batch.actions ≡ []) × (lockers batch.actions ≡ new hos owner_key ∷ [])
unfolding create_sub_account text_eq sub_account_key
created_keyless_example =
    created_keyless manager_env name owner_key (record { registry = hos }) batch refl
