-- ===== src/System/Census/Updates.antt =====
-- What the updates of one entry do to the number of a TLA's names.
use hos_tla.Base.{◌≡◌, arith, Text, none, some, ok, Option-cases, inl, inr, max, add_u64}
use hos_tla.Base.Maps.{get, insert}
use hos_tla.Base.Maps.Sums.{IsMap, insert-IsMap, sum_by-insert}
use hos_tla.Types.{AccountId, SubAccountEntry, one_year_ns}
use hos_tla.Types.Names.{sub_account_key}
use hos_tla.Registry.{Env, Registry}
use hos_tla.Rental.{renew_sub_account, set_main_wallet}
use hos_tla.Business.{schedule_retraction, cancel_retraction}
use hos_tla.System.Census.{under, names_of}

-- As many names of the TLA, and the maps and counts as they were.
pub record SameNames (b : AccountId) (s t : Registry) : Type 0 where
  pub is_map : IsMap t.sub_accounts
  pub names : names_of b t ≡ names_of b s
  pub counts : t.business_sub_count ≡ s.business_sub_count

-- An entry is written over by one of the same TLA.
pub replaced-SameNames :
    (b : AccountId) (at : Text) (old new : SubAccountEntry) (s t : Registry)
    → IsMap s.sub_accounts
    → get at s.sub_accounts ≡ some old
    → new.tla_id ≡ old.tla_id
    → t.sub_accounts ≡ insert at new s.sub_accounts
    → t.business_sub_count ≡ s.business_sub_count
    → SameNames b s t
replaced-SameNames b at old new s t m e same u c =
    ground
      (arith, insert-IsMap at new s.sub_accounts m, sum_by-insert (under b) at new s.sub_accounts)

module _ (env : Env) (b tla : AccountId) (name : Text) (s t : Registry)
    (m : IsMap s.sub_accounts) where
  pub renew-SameNames : renew_sub_account env tla name s ≡ ok t → SameNames b s t
  unfolding renew_sub_account
  renew-SameNames h =
      let at = sub_account_key tla name in
      elim (Option-cases (get at s.sub_accounts)) [
        | inl e ↦ absurd (ground arith)
        | inr (old, e) ↦
            replaced-SameNames b at old
              (record old {
                expires_at = add_u64 (max env.block_timestamp old.expires_at) one_year_ns;
              })
              s t m e (ground arith) (ground arith) (ground arith)
      ]

  pub wallet-SameNames : (w : AccountId) → set_main_wallet env tla name w s ≡ ok t → SameNames b s t
  unfolding set_main_wallet
  wallet-SameNames w h =
      let at = sub_account_key tla name in
      elim (Option-cases (get at s.sub_accounts)) [
        | inl e ↦ absurd (ground arith)
        | inr (old, e) ↦
            replaced-SameNames b at old (record old { main_wallet = w }) s t m e (ground arith)
              (ground arith) (ground arith)
      ]

  pub schedule-SameNames : schedule_retraction env tla name s ≡ ok t → SameNames b s t
  unfolding schedule_retraction
  schedule-SameNames h =
      let at = sub_account_key tla name in
      elim (Option-cases (get at s.sub_accounts)) [
        | inl e ↦ absurd (ground arith)
        | inr (old, e) ↦
            replaced-SameNames b at old (record old { retraction_at = some env.block_timestamp }) s
              t m e (ground arith) (ground arith) (ground arith)
      ]

  pub cancel-SameNames : cancel_retraction env tla name s ≡ ok t → SameNames b s t
  unfolding cancel_retraction
  cancel-SameNames h =
      let at = sub_account_key tla name in
      elim (Option-cases (get at s.sub_accounts)) [
        | inl e ↦ absurd (ground arith)
        | inr (old, e) ↦
            replaced-SameNames b at old (record old { retraction_at = none }) s t m e (ground arith)
              (ground arith) (ground arith)
      ]
