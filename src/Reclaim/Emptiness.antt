-- ===== src/Reclaim/Emptiness.antt =====
-- An account is deleted only if it holds no allowlisted token.
use hos_tla.Base.{
  ◌≤◌, ◌≡◌, ◌↔◌, true, none, some, List, [], ◌∷◌, arith, Text, length, refl, ok, inl, inr,
  Result-cases,
}
use hos_tla.Types.{AccountId}
use hos_tla.Types.Names.{sub_account_key}
use hos_tla.Registry.{Env, Registry, PromiseResult}
use hos_tla.Marketplace.Balances.{IsZero, AllZero}
use hos_tla.Reclaim.{balance_verdict, first_block, on_balances_checked, delete_promise}

module _ (env : Env) where
  IsZero-clear : (r : PromiseResult) → IsZero env r → balance_verdict env r ≡ ok none
  unfolding balance_verdict
  IsZero-clear (PromiseResult.returned bytes) h = ground arith
  IsZero-clear PromiseResult.failed h = absurd h
  IsZero-clear PromiseResult.unverifiable h = absurd h

  clear-IsZero : (r : PromiseResult) → balance_verdict env r ≡ ok none → IsZero env r
  unfolding balance_verdict
  clear-IsZero (PromiseResult.returned bytes) h = ground arith
  clear-IsZero PromiseResult.failed h = cc
  clear-IsZero PromiseResult.unverifiable h = cc

  AllZero-clear :
      (rs : List PromiseResult) (l : List AccountId)
      → length rs ≤ length l
      → AllZero env rs
      → first_block env rs l ≡ ok none
  unfolding first_block
  AllZero-clear [] l le h = refl
  AllZero-clear (r ∷ rs) [] le h = absurd (omega arith)
  AllZero-clear (r ∷ rs) (x ∷ l) le h =
      ground (arith, IsZero-clear r h.0, AllZero-clear rs l (omega arith) h.1)

  clear-AllZero :
      (rs : List PromiseResult) (l : List AccountId)
      → first_block env rs l ≡ ok none
      → AllZero env rs
  unfolding first_block
  clear-AllZero [] l h = tt
  clear-AllZero (r ∷ rs) [] h = cc
  clear-AllZero (r ∷ rs) (x ∷ l) h = elim (Result-cases (balance_verdict env r)) [
    | inr (c, e) ↦ absurd (ground arith)
    | inl (none, e) ↦ (clear-IsZero r e, clear-AllZero rs l (ground arith))
    | inl (some b, e) ↦ absurd (ground arith)
  ]

  module _ (rs : List PromiseResult) (tla_id : AccountId) (name : Text) (d : AccountId)
      (l : List AccountId) (s : Registry)
      (valid : env.is_account_id (sub_account_key tla_id name) ≡ true)
      (answered : length rs ≤ length l) where
    -- For a key that is an account id, and no more answers than tokens, the account is deleted and
    -- the registry left unchanged exactly when every answer is the number 0.
    pub deleted_iff_empty :
        (on_balances_checked env rs tla_id name d l s ≡ ok (s, some (delete_promise tla_id name d)))
        ↔ AllZero env rs
    unfolding on_balances_checked
    deleted_iff_empty =
        (λ h. clear-AllZero rs l (ground arith), λ h. ground (arith, AllZero-clear rs l answered h))
