-- ===== src/Reclaim/Removal.antt =====
-- What is left of an account that was deleted or exported.
use hos_tla.Base.{◌==◌, ◌-◌, ◌≡◌, Bool, true, false, none, arith, Text, refl, if◌then◌else◌}
use hos_tla.Base.Maps.{get, contains_key, get-remove}
use hos_tla.Types.{AccountId}
use hos_tla.Types.Names.{sub_account_key}
use hos_tla.Registry.{Registry}
use hos_tla.Reclaim.{on_reclaim_finalized, on_export_settled}

-- The account is gone with its listing and its offer, one account fewer is counted, every other
-- entry stands, and no money moves.
pub record IsRemoved (key : Text) (s t : Registry) : Type 0 where
  pub entry : (k : Text) → get k t.sub_accounts ≡ (if key == k then none else get k s.sub_accounts)
  pub listing : (k : Text) → get k t.listings ≡ (if key == k then none else get k s.listings)
  pub offer :
      (k : Text) → get k t.accepted_offers ≡ (if key == k then none else get k s.accepted_offers)
  pub counted : t.sub_account_count ≡ s.sub_account_count - 1
  pub revenue : t.total_revenue ≡ s.total_revenue
  pub refunds : t.pending_refunds ≡ s.pending_refunds

-- When the locker has deleted itself, the entry, the listing and the offer under the account's key
-- leave the registry, one account fewer is counted, all other entries stand and no money moves;
-- when it failed, nothing changes.
pub finalized_removes :
    (tla_id : AccountId) (name : Text) (d : AccountId) (s : Registry)
    → IsRemoved (sub_account_key tla_id name) s (on_reclaim_finalized true tla_id name d s)
      × (on_reclaim_finalized false tla_id name d s ≡ s)
unfolding on_reclaim_finalized
finalized_removes tla_id name d s =
    let key = sub_account_key tla_id name in
    (
      record {
        entry = λ k. ground (arith, get-remove key k s.sub_accounts);
        listing = λ k. ground (arith, get-remove key k s.listings);
        offer = λ k. ground (arith, get-remove key k s.accepted_offers);
        counted = ground arith;
        revenue = ground arith;
        refunds = ground arith;
      },
      refl,
    )

-- When the key of an exported account was added and the registry still has the account, its entry,
-- listing and offer leave the registry, one account fewer is counted, all other entries stand and
-- no money moves.
pub exported_removes :
    (tla_id : AccountId) (name : Text) (s : Registry)
    → contains_key (sub_account_key tla_id name) s.sub_accounts ≡ true
    → IsRemoved (sub_account_key tla_id name) s (on_export_settled true tla_id name s)
unfolding on_export_settled
exported_removes tla_id name s there =
    let key = sub_account_key tla_id name in
    record {
      entry = λ k. ground (arith, get-remove key k s.sub_accounts);
      listing = λ k. ground (arith, get-remove key k s.listings);
      offer = λ k. ground (arith, get-remove key k s.accepted_offers);
      counted = ground arith;
      revenue = ground arith;
      refunds = ground arith;
    }

-- When an export is settled for an account that has left already, however the export ended,
-- nothing changes: it is not counted off twice.
pub exported_once :
    (success : Bool) (tla_id : AccountId) (name : Text) (s : Registry)
    → contains_key (sub_account_key tla_id name) s.sub_accounts ≡ false
    → on_export_settled success tla_id name s ≡ s
unfolding on_export_settled
exported_once success tla_id name s gone = ground arith
