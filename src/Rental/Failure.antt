-- ===== src/Rental/Failure.antt =====
-- A rental whose account could not be created.
use hos_tla.Base.{
  ◌==◌, ℕ, ◌+◌, ◌≤◌, ◌≡◌, false, none, arith, Text, u128_max, add_u128, unwrap_or, ok,
  if◌then◌else◌, eq_iff,
}
use hos_tla.Base.Maps.{get, get-remove, get-insert_self}
use hos_tla.Types.{AccountId}
use hos_tla.Types.Names.{sub_account_key}
use hos_tla.Registry.{Registry}
use hos_tla.Core.{get_pending_refund}
use hos_tla.Business.{decrement_if_business}
use hos_tla.Rental.{on_sub_account_created}

-- When the account could not be created, the payer gets the whole attached sum back as long as
-- the refunds stay in range, the name is free again, all other accounts stand, and no rent is
-- booked.
pub failed_rental_refunds :
    (tla_id : AccountId) (name : Text) (payer : AccountId) (rent attached : ℕ) (s t : Registry)
    → s.total_pending_refunds + attached ≤ u128_max
    → get_pending_refund payer s ≤ s.total_pending_refunds
    → on_sub_account_created false tla_id name payer rent attached s ≡ ok t
    → (get_pending_refund payer t ≡ get_pending_refund payer s + attached)
      × (t.total_revenue ≡ s.total_revenue)
      × ((k : Text)
          → get k t.sub_accounts
            ≡ (if sub_account_key tla_id name == k then none else get k s.sub_accounts))
unfolding on_sub_account_created get_pending_refund decrement_if_business
failed_rental_refunds tla_id name payer rent attached s t fits le h =
    let m = s.pending_refunds in
    (
      ground (arith, get-insert_self payer (add_u128 (unwrap_or 0 (get payer m)) attached) m),
      ground arith,
      λ k. ground (arith, get-remove (sub_account_key tla_id name) k s.sub_accounts),
    )

-- The flaw: when the account could not be created its entry goes, but the listings, the accepted
-- offers and the use counts stay as they are, those under its key included.
pub failed_rental_leaves_terms :
    (tla_id : AccountId) (name : Text) (payer : AccountId) (rent attached : ℕ) (s t : Registry)
    → on_sub_account_created false tla_id name payer rent attached s ≡ ok t
    → (get (sub_account_key tla_id name) t.sub_accounts ≡ none)
      × (t.listings ≡ s.listings)
      × (t.accepted_offers ≡ s.accepted_offers)
      × (t.mother_use_count ≡ s.mother_use_count)
unfolding on_sub_account_created decrement_if_business
failed_rental_leaves_terms tla_id name payer rent attached s t h =
    let key = sub_account_key tla_id name in
    (
      ground (arith, get-remove key key s.sub_accounts, eq_iff key key),
      ground arith,
      ground arith,
      ground arith,
    )
