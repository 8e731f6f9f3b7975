-- ===== src/Tests/Mothers.antt =====
-- Witnesses for the mothers and their use counts.
use hos_tla.Base.{◌≡◌, ◌≢◌, refl, false, some, [], ◌∷◌, arith, text_eq, ok}
use hos_tla.Base.Maps.{get, insert, remove, contains_key}
use hos_tla.Types.Names.{sub_account_key}
use hos_tla.Types.{one_near}
use hos_tla.Registry.{Registry}
use hos_tla.Mother.{get_mother, get_mother_use_count, is_mother, set_mother}
use hos_tla.Mother.Counting.{uncounted_use_given_up}
use hos_tla.Reclaim.{reclaim_finalize, reclaim_sweep_ft, export_sub_account}
use hos_tla.Marketplace.{buy_sub_account, list_sub_account, accept_offer}
use hos_tla.System.Protection.{mother_is_protected}
use hos_tla.Tests.Scenario.{hos, alice, bob, fun, name, key, env_of, rented}
use hos_tla.Tests.Market.{registry_of, bought}
use hos_tla.Tests.Removals.{promised}

-- `bob.near` has `alice.fun` as a counted mother, and `alice.near` named it before it was rented.
abbrev counted : Registry
counted = record rented {
  mothers = (alice, key) ∷ (bob, key) ∷ [];
  mother_use_count = (key, 1) ∷ [];
}

-- `alice.near` names `alice.fun` instead of itself.
abbrev named : Registry
named = registry_of rented (set_mother (env_of alice 1 300) key rented)

abbrev changed : Registry
changed = registry_of counted (set_mother (env_of alice 1 300) alice counted)

uncounted_use_given_up_example :
    (get_mother bob changed ≡ some key) × (is_mother key changed ≡ false)
unfolding set_mother get insert remove text_eq contains_key get_mother_use_count
uncounted_use_given_up_example =
    uncounted_use_given_up (env_of alice 1 300) bob key alice counted changed refl refl
      (ground arith) (ground arith) refl refl

mother_is_protected_example :
    (reclaim_sweep_ft (env_of bob 0 300) fun name hos counted ≢ ok promised)
    × (reclaim_finalize (env_of bob 0 300) fun name counted ≢ ok promised)
    × (export_sub_account (env_of bob 0 300) fun name counted ≢ ok promised)
    × (buy_sub_account (env_of bob 0 300) fun name key counted ≢ ok bought)
    × (list_sub_account (env_of bob 0 300) fun name one_near counted ≢ ok rented)
    × (accept_offer (env_of bob 0 300) fun name bob one_near counted ≢ ok rented)
unfolding is_mother get text_eq sub_account_key
mother_is_protected_example =
    mother_is_protected (env_of bob 0 300) fun name hos bob key one_near counted rented promised
      bought refl
