-- ===== src/Marketplace/Sellable.antt =====
-- Which accounts can be sold, and who can offer them.
use hos_tla.Base.{
  ℕ, ◌<◌, ◌≡◌, ◌↔◌, inl, inr, true, false, none, some, arith, Text, eq_iff, ok, Option-cases,
  Result-cases,
}
use hos_tla.Base.Maps.{get, get-insert_self}
use hos_tla.Types.{AccountId, TlaEntry, TlaStatus, SubAccountEntry, AcceptedOffer, LifecycleStatus}
use hos_tla.Types.Lifecycle.{effective_sub_lifecycle}
use hos_tla.Types.Names.{sub_account_key}
use hos_tla.Mother.{get_mother_use_count}
use hos_tla.Registry.{Env, Registry}
use hos_tla.Marketplace.{assert_sellable, list_sub_account, accept_offer}

-- The account is managed, its term, its TLA's and its retraction let it be sold, and it is nobody's
-- mother.
pub record IsSellable (env : Env) (key : Text) (tla_id owner : AccountId) (s : Registry)
    : Type 0 where
  pub valid_id : env.is_account_id key ≡ true
  pub no_mother : get_mother_use_count key s ≡ 0
  pub sub : SubAccountEntry
  pub found : get key s.sub_accounts ≡ some sub
  pub owned : sub.owner ≡ owner
  pub no_retraction : sub.retraction_at ≡ none
  pub tla : TlaEntry
  pub tla_found : get tla_id s.tlas ≡ some tla
  pub tla_active : tla.status ≡ TlaStatus.active
  pub live :
      effective_sub_lifecycle env.block_timestamp sub tla s.fee_config.retraction_notice_ns
      ≡ LifecycleStatus.active

module _ (env : Env) (key : Text) (tla_id owner : AccountId) (s : Registry) where
  pub IsSellable-why :
      assert_sellable env key tla_id s ≡ ok owner → IsSellable env key tla_id owner s
  unfolding assert_sellable get_mother_use_count
  IsSellable-why h = elim (Option-cases (get key s.sub_accounts)) [
    | inl e ↦ ground arith
    | inr (sub, e) ↦ elim (Option-cases (get tla_id s.tlas)) [
      | inl f ↦ ground arith
      | inr (tla, f) ↦ record {
        valid_id = ground arith;
        no_mother = ground arith;
        sub = sub;
        found = e;
        owned = ground arith;
        no_retraction = ground arith;
        tla = tla;
        tla_found = f;
        tla_active = ground arith;
        live = ground arith;
      }
    ]
  ]

  IsSellable-if : IsSellable env key tla_id owner s → assert_sellable env key tla_id s ≡ ok owner
  unfolding assert_sellable get_mother_use_count
  IsSellable-if k = ground (
    arith, k.found, k.tla_found, k.valid_id, k.no_mother, k.owned, k.no_retraction, k.tla_active,
    k.live,
  )

-- The guard of every sale passes exactly for a sellable account, and names its owner.
pub IsSellable-iff :
    (env : Env) (key : Text) (tla_id owner : AccountId) (s : Registry)
    → (assert_sellable env key tla_id s ≡ ok owner) ↔ IsSellable env key tla_id owner s
IsSellable-iff env key tla_id owner s =
    (IsSellable-why env key tla_id owner s, IsSellable-if env key tla_id owner s)

-- Only the owner of a sellable account puts it on the list, at a positive price, and the listing
-- then stands at that price.
pub listed_by_owner :
    (env : Env) (tla : AccountId) (name : Text) (price : ℕ) (s t : Registry)
    → list_sub_account env tla name price s ≡ ok t
    → IsSellable env (sub_account_key tla name) tla env.predecessor s
      × (0 < price)
      × (get (sub_account_key tla name) t.listings
          ≡ some (record { price = price; settling = false }))
unfolding list_sub_account
listed_by_owner env tla name price s t h =
    let key = sub_account_key tla name in
    elim (Result-cases (assert_sellable env key tla s)) [
      | inr (c, f) ↦ ground arith
      | inl (owner, f) ↦ (
        IsSellable-why env key tla env.predecessor s (ground (arith, eq_iff env.predecessor owner)),
        ground arith,
        ground (arith, get-insert_self key (record { price = price; settling = false }) s.listings),
      )
    ]

-- Only the owner of a sellable account accepts an offer, at a positive price, and the offer then
-- stands for the named buyer at that price.
pub accepted_by_owner :
    (env : Env) (tla : AccountId) (name : Text) (buyer : AccountId) (price : ℕ) (s t : Registry)
    → accept_offer env tla name buyer price s ≡ ok t
    → IsSellable env (sub_account_key tla name) tla env.predecessor s
      × (0 < price)
      × (get (sub_account_key tla name) t.accepted_offers
          ≡ some (record { buyer = buyer; price = price; settling = false }))
unfolding accept_offer
accepted_by_owner env tla name buyer price s t h =
    let key = sub_account_key tla name in
    let offer : AcceptedOffer = record { buyer = buyer; price = price; settling = false } in
    elim (Result-cases (assert_sellable env key tla s)) [
      | inr (c, f) ↦ ground arith
      | inl (owner, f) ↦ (
        IsSellable-why env key tla env.predecessor s (ground (arith, eq_iff env.predecessor owner)),
        ground arith,
        ground (arith, get-insert_self key offer s.accepted_offers),
      )
    ]
