-- ===== src/System/Protection.antt =====
-- An account that is somebody's mother can be neither sold nor taken away.
use hos_tla.Base.{ℕ, ◌≡◌, ◌≢◌, true, arith, Text, ok}
use hos_tla.Types.{AccountId, PublicKey}
use hos_tla.Types.Names.{sub_account_key}
use hos_tla.Registry.{Env, Registry, Outcome, Promise}
use hos_tla.Mother.{is_mother}
use hos_tla.Reclaim.{reclaim_finalize, reclaim_sweep_ft, export_sub_account}
use hos_tla.Marketplace.{buy_sub_account, list_sub_account, accept_offer}

-- While an account counts as a mother, nobody can have it swept, deleted or exported, buy it, list
-- it or accept an offer for it.
pub mother_is_protected :
    (env : Env) (tla : AccountId) (name : Text) (ft buyer : AccountId) (k : PublicKey) (price : ℕ)
    (s t : Registry) (p : Promise) (o : Outcome)
    → is_mother (sub_account_key tla name) s ≡ true
    → (reclaim_sweep_ft env tla name ft s ≢ ok p)
      × (reclaim_finalize env tla name s ≢ ok p)
      × (export_sub_account env tla name s ≢ ok p)
      × (buy_sub_account env tla name k s ≢ ok o)
      × (list_sub_account env tla name price s ≢ ok t)
      × (accept_offer env tla name buyer price s ≢ ok t)
unfolding reclaim_sweep_ft reclaim_finalize export_sub_account buy_sub_account list_sub_account
    accept_offer
mother_is_protected env tla name ft buyer k price s t p o m = (
  λ h. ground arith,
  λ h. ground arith,
  λ h. ground arith,
  λ h. ground arith,
  λ h. ground arith,
  λ h. ground arith,
)
