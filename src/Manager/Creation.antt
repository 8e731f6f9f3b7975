-- ===== src/Manager/Creation.antt =====
-- What the manager creates for a rental, seen with the registry's entry for it.
use hos_tla.Base.{◌≡◌, refl, ap, ◌∙◌, List, [], ◌∷◌, arith, Text, eq_iff, some, ok}
use hos_tla.Base.Maps.{get}
use hos_tla.Types.{AccountId, PublicKey, SubAccountEntry}
use hos_tla.Types.Names.{sub_account_key}
use hos_tla.Registry.{Registry, Outcome, Call}
use hos_tla.Rental.{rent_sub_account}
use hos_tla.Rental.Admission.{rental_recorded}
use hos_tla.Manager.{Action, Batch, Env, TlaManager, create_sub_account, assert_registry}
use hos_tla.SubAccountLocker.{SubAccountLocker, new}

-- The full access keys that a batch adds, and the lockers that it initialises, in order.
abbrev pub added_keys : List Action → List PublicKey
added_keys [] = []
added_keys (Action.add_full_access_key k ∷ rest) = k ∷ added_keys rest
added_keys (_ ∷ rest) = added_keys rest

abbrev pub lockers : List Action → List SubAccountLocker
lockers [] = []
lockers (Action.init_locker registry owner_key ∷ rest) = new registry owner_key ∷ lockers rest
lockers (_ ∷ rest) = lockers rest

-- The manager acts only for its registry. What it creates has no full access key and one locker,
-- which obeys that registry and is to hand the account to the given key.
pub created_keyless :
    (env : Env) (name : Text) (k : PublicKey) (m : TlaManager) (b : Batch)
    → create_sub_account env name k m ≡ ok b
    → (env.predecessor ≡ m.registry)
      × (added_keys b.actions ≡ [])
      × (lockers b.actions ≡ new m.registry k ∷ [])
unfolding create_sub_account assert_registry
created_keyless env name k m b h =
    (ground (arith, eq_iff env.predecessor m.registry), ground arith, ground arith)

at_receiver :
    (env : Env) (name : Text) (k : PublicKey) (m : TlaManager) (b : Batch) (key : Text)
    (s : Registry)
    → sub_account_key env.current name ≡ key
    → create_sub_account env name k m ≡ ok b
    → get b.receiver s.sub_accounts ≡ get key s.sub_accounts
unfolding create_sub_account
at_receiver env name k m b key s e h = ground arith

-- The account that the manager of the TLA creates for a rental is the one that the registry has
-- entered, for the renter.
pub created_as_recorded :
    (env : hos_tla.Registry.Env) (tla_id : AccountId) (name : Text) (k : PublicKey)
    (wallet : AccountId) (s : Registry) (o : Outcome) (at_tla : Env) (m : TlaManager) (b : Batch)
    → rent_sub_account env tla_id name k wallet s ≡ ok o
    → at_tla.current ≡ tla_id
    → create_sub_account at_tla name k m ≡ ok b
    → (sub : SubAccountEntry) × (get b.receiver o.state.sub_accounts ≡ some sub)
      × (sub.owner ≡ env.predecessor)
      × (sub.tla_id ≡ tla_id)
created_as_recorded env tla_id name k wallet s o at_tla m b h here_tla c =
    let recorded = rental_recorded env tla_id name k wallet s o h in
    (
      _,
      at_receiver at_tla name k m b (sub_account_key tla_id name) o.state
            (ap (λ t. sub_account_key t name) here_tla) c
          ∙ recorded.0,
      refl,
      refl,
    )
