-- ===== src/Tests/World.antt =====
-- The network with the accounts: `alice.fun` is rented and created, and its rental settled.
use hos_tla.Base.{
  ◌*◌, ◌≢◌, ◌+◌, ◌≡◌, ◌↔◌, refl, true, false, Option, none, some, [], ◌∷◌, ◌++◌, text, text_eq, ok,
}
use hos_tla.Base.Maps.{get, insert, contains_key}
use hos_tla.Base.Sets.{contains}
use hos_tla.Types.{one_near}
use hos_tla.Types.Names.{
  validate_name, all_name_bytes, is_name_byte, starts_with_separator, ends_with_separator,
  sub_account_key, total_name_length,
}
use hos_tla.Types.Lifecycle.{is_accepting_rentals}
use hos_tla.Fees.{calculate_rent, sub_account_rent}
use hos_tla.Mother.{ensure_mother_default}
use hos_tla.Registry.{Registry, Callback, Call, Promise}
use hos_tla.Reclaim.{export_sub_account, reclaim_sweep_ft, reclaim_finalize}
use hos_tla.SubAccountLocker
use hos_tla.SubAccountLocker.{SubState, SubAccountLocker, export_ending}
use hos_tla.Manager
use hos_tla.System.{Op, call, resolve}
use hos_tla.System.World.{
  World, Pending, requests, start, called, created, executed, resolved, Step, Reach, AllAdded,
  succeeded, here, next,
}
use hos_tla.System.World.Accounts.{controlled}
use hos_tla.System.World.Requests.{owes, total, entered}
use hos_tla.System.World.Agreement.{entered_exactly, settled_agreement}
use hos_tla.System.World.Orphans.{failed_export_orphans, refused}
use hos_tla.Tests.Scenario.{
  hos, alice, bob, fun, name, key, env_of, state_of, promise_of, any_text, fine, register, rent,
}
use hos_tla.Tests.Network.{registered, activated, paid, renting, rent_promise}
use hos_tla.Tests.Removals.{promised}

abbrev world_of : Registry → World
world_of s = record { registry = s; accounts = []; pending = [] }

abbrev at_fun : Manager.Env
at_fun = record { predecessor = hos; current = fun; attached_deposit = 0; is_account_id = any_text }

abbrev created_call : Call
created_call = Call.create_sub_account fun name (text "ed25519:alice") (2 * one_near)

abbrev created_callback : Callback
created_callback = Callback.on_sub_account_created fun name alice (15 * one_near) (20 * one_near)

-- The rental is on its way, the account is created, and the callback has run.
abbrev asking : World
asking = record (world_of renting) { pending = requests rent_promise ++ [] }

abbrev batch : Manager.Batch
batch = record {
  receiver = key;
  actions =
      Manager.Action.create_account
      ∷ Manager.Action.transfer 0
      ∷ Manager.Action.deploy_locker
      ∷ Manager.Action.init_locker hos (text "ed25519:alice")
      ∷ [];
}

abbrev locker : SubAccountLocker
locker = SubAccountLocker.new hos (text "ed25519:alice")

abbrev made : World
made = record {
  registry = renting;
  accounts = insert key locker [];
  pending = Pending.answered true created_callback ∷ [];
}

abbrev confirmed : Registry
confirmed = state_of renting (resolve (env_of hos 0 210) fine created_callback renting)

abbrev settled : World
settled = record { registry = confirmed; accounts = insert key locker []; pending = [] }

at_asking : (r : Reach hos (start hos) asking) × AllAdded hos (start hos) asking r
unfolding call get insert contains text_eq validate_name all_name_bytes is_name_byte
    starts_with_separator ends_with_separator sub_account_key is_accepting_rentals calculate_rent
    sub_account_rent total_name_length ensure_mother_default
at_asking = (
  next
      (next (next here (called (start hos) (env_of hos 0 50) register registered none refl tt)) (
        called (world_of registered) (env_of hos 0 100) (Op.activate_open_tla fun) activated none
          refl tt))
      (called (world_of activated) paid rent renting rent_promise refl tt),
  (tt, (tt, (tt, tt))),
)

at_made : (r : Reach hos (start hos) made) × AllAdded hos (start hos) made r
unfolding call get insert contains text_eq validate_name all_name_bytes is_name_byte
    starts_with_separator ends_with_separator sub_account_key is_accepting_rentals calculate_rent
    sub_account_rent total_name_length ensure_mother_default contains_key Manager.create_sub_account
    Manager.assert_registry
at_made = (
  next at_asking.0 (
      created asking [] fun name (text "ed25519:alice") (2 * one_near) created_callback [] at_fun
        (Manager.new hos) batch locker refl refl refl refl refl),
  (tt, at_asking.1),
)

at_settled : (r : Reach hos (start hos) settled) × AllAdded hos (start hos) settled r
unfolding resolve call get insert contains text_eq validate_name all_name_bytes is_name_byte
    starts_with_separator ends_with_separator sub_account_key is_accepting_rentals calculate_rent
    sub_account_rent total_name_length ensure_mother_default
at_settled = (
  next at_made.0
      (resolved made (env_of hos 0 210) fine [] created_callback [] confirmed none refl refl),
  (tt, at_made.1),
)

entered_exactly_example :
    entered key asking.registry ≡ controlled key asking.accounts + total (owes key) asking.pending
entered_exactly_example = entered_exactly hos hos asking key at_asking.0 at_asking.1

settled_agreement_example :
    (contains_key key settled.registry.sub_accounts ≡ true)
    ↔ ((l : SubAccountLocker) × (get key settled.accounts ≡ some l) × (l.state ≡ SubState.held))
settled_agreement_example = settled_agreement hos hos settled key at_settled.0 at_settled.1 refl

-- An admin has `alice.fun` exported, and the locker is adding the key.
abbrev export_op : Op
export_op = Op.export_sub_account fun name

abbrev export_promise : Option Promise
export_promise = promise_of (call (env_of hos 0 400) export_op confirmed)

abbrev export_callback : Callback
export_callback = Callback.on_export_settled fun name

abbrev exporting : World
exporting = record settled { pending = requests export_promise ++ [] }

abbrev locked : SubAccountLocker
locked = record locker { state = SubState.exporting }

abbrev adding : World
adding = record {
  registry = confirmed;
  accounts = insert key locked (insert key locker []);
  pending = Pending.adding key export_callback ∷ [];
}

at_adding : (r : Reach hos (start hos) adding) × AllAdded hos (start hos) adding r
unfolding resolve call get insert contains contains_key text_eq validate_name all_name_bytes
    is_name_byte starts_with_separator ends_with_separator sub_account_key is_accepting_rentals
    calculate_rent sub_account_rent total_name_length ensure_mother_default SubAccountLocker.export
    SubAccountLocker.assert_registry SubAccountLocker.assert_held
at_adding = (
  next
      (next at_settled.0
        (called settled (env_of hos 0 400) export_op confirmed export_promise refl tt))
      (executed exporting [] (Call.export key) export_callback []
        (insert key locked (insert key locker [])) refl refl refl),
  (tt, (tt, at_settled.1)),
)

failed_export_orphans_example :
    let cb = Callback.on_export_settled fun name in
    (contains_key (sub_account_key fun name) confirmed.sub_accounts ≡ true)
    × ((l : SubAccountLocker) × (get (sub_account_key fun name) adding.accounts ≡ some l)
        × Step hos adding (refused [] (sub_account_key fun name) cb [] l adding)
        × ((m : SubAccountLocker) × (get
                (sub_account_key fun name)
                (refused [] (sub_account_key fun name) cb [] l adding).accounts
              ≡ some m)
            × (m.state ≡ SubState.held))
        × ((t : Registry) × (resolve
                (env_of hos 0 410)
                (record { success = succeeded (export_ending false l); results = [] })
                cb
                confirmed
              ≡ ok (t, none))
            × (get (sub_account_key fun name) t.sub_accounts ≡ none)
            × (export_sub_account (env_of hos 0 420) fun name t ≢ ok promised)
            × (reclaim_sweep_ft (env_of hos 0 420) fun name bob t ≢ ok promised)
            × (reclaim_finalize (env_of hos 0 420) fun name t ≢ ok promised)))
unfolding sub_account_key
failed_export_orphans_example =
    failed_export_orphans hos hos adding [] [] fun name (env_of hos 0 410) (env_of hos 0 420) bob
      promised at_adding.0 at_adding.1 refl
