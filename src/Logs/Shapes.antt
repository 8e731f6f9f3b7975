-- ===== src/Logs/Shapes.antt =====
-- How a client reads an event from the values of its fields.
use hos_tla.Base.{◌==◌, ℕ, Option, none, some, List, [], ◌∷◌, Text, text, if◌then◌else◌}
use hos_tla.Types.{TlaType, PremiumCategory}
use hos_tla.Registry.{Event, BlockReason, MotherSource}
use hos_tla.Logs.Values.{Value}
use hos_tla.Logs.Decimal.{read_decimal}

abbrev pub with_amount : Text → (ℕ → Option Event) → Option Event
with_amount s f = elim (read_decimal s) [ none ↦ none | some n ↦ f n ]

abbrev pub read_tla_type : Text → TlaType
read_tla_type s = if s == text "business" then TlaType.business else TlaType.open_tla

abbrev pub read_premium : Text → PremiumCategory
read_premium s =
    if s == text "legendary"
    then PremiumCategory.legendary
    else if s == text "premium"
    then PremiumCategory.premium
    else if s == text "standard"
    then PremiumCategory.standard
    else PremiumCategory.community

abbrev pub read_licensee : Value → Option Text
read_licensee (Value.word a) = some a
read_licensee _ = none

abbrev pub read_word : Text → BlockReason
read_word s =
    if s == text "balance_query_failed"
    then BlockReason.balance_query_failed
    else if s == text "balance_query_unverifiable"
    then BlockReason.balance_query_unverifiable
    else if s == text "balance_unverifiable"
    then BlockReason.balance_unverifiable
    else if s == text "result_count_mismatch"
    then BlockReason.result_count_mismatch
    else if s == text "invalid_sub_account_id"
    then BlockReason.invalid_sub_account_id
    else if s == text "transfer_failed"
    then BlockReason.transfer_failed
    else BlockReason.creation_failed

abbrev pub read_reason : Text → BlockReason
read_reason s = elim (read_decimal s) [ none ↦ read_word s | some n ↦ BlockReason.balance n ]

abbrev pub read_source : Text → MotherSource
read_source s = if s == text "explicit" then MotherSource.explicit else MotherSource.default

abbrev pub as_contract_paused : (Text → Event) → List Value → Option Event
as_contract_paused f (Value.word by ∷ []) = some (f by)
as_contract_paused f _ = none

abbrev pub as_tla_registered :
    (Text → TlaType → PremiumCategory → Option Text → Event) → List Value → Option Event
as_tla_registered f (Value.word t ∷ Value.word s1 ∷ Value.word s2 ∷ v ∷ []) =
    some (f t (read_tla_type s1) (read_premium s2) (read_licensee v))
as_tla_registered f _ = none

abbrev pub as_tla_activated : (Text → ℕ → ℕ → Event) → List Value → Option Event
as_tla_activated f (Value.word t ∷ Value.number e ∷ Value.word s2 ∷ []) =
    with_amount s2 (λ paid. some (f t e paid))
as_tla_activated f _ = none

abbrev pub as_sub_account_rented : (Text → Text → Text → ℕ → ℕ → Event) → List Value → Option Event
as_sub_account_rented f
      (Value.word n ∷ Value.word t ∷ Value.word o ∷ Value.word s3 ∷ Value.number e ∷ []) =
    with_amount s3 (λ rent. some (f n t o rent e))
as_sub_account_rented f _ = none

abbrev pub as_tla_renewed : (Text → ℕ → ℕ → Event) → List Value → Option Event
as_tla_renewed f (Value.word x ∷ Value.number e ∷ Value.word s2 ∷ []) =
    with_amount s2 (λ paid. some (f x e paid))
as_tla_renewed f _ = none

abbrev pub as_withdrawal_queued : (ℕ → Text → Event) → List Value → Option Event
as_withdrawal_queued f (Value.word s0 ∷ Value.word r ∷ []) = with_amount s0 (λ n. some (f n r))
as_withdrawal_queued f _ = none

-- The field with a fixed text has that text.
abbrev pub as_admin_added : Text → (Text → Text → Event) → List Value → Option Event
as_admin_added fixed f (Value.word s ∷ Value.word a ∷ Value.word by ∷ []) =
    if s == fixed then some (f a by) else none
as_admin_added fixed f _ = none

abbrev pub as_tla_suspended : Text → (Text → Text → Event) → List Value → Option Event
as_tla_suspended fixed f (Value.word t ∷ Value.word s ∷ Value.word by ∷ []) =
    if s == fixed then some (f t by) else none
as_tla_suspended fixed f _ = none

abbrev pub as_refund_pending : (Text → ℕ → BlockReason → Event) → List Value → Option Event
as_refund_pending f (Value.word a ∷ Value.word s1 ∷ Value.word s2 ∷ []) =
    with_amount s1 (λ n. some (f a n (read_reason s2)))
as_refund_pending f _ = none

abbrev pub as_sub_account_reclaimed : (Text → Text → Text → Event) → List Value → Option Event
as_sub_account_reclaimed f (Value.word n ∷ Value.word t ∷ Value.word d ∷ []) = some (f n t d)
as_sub_account_reclaimed f _ = none

abbrev pub as_sub_account_exported : (Text → Text → Event) → List Value → Option Event
as_sub_account_exported f (Value.word n ∷ Value.word t ∷ []) = some (f n t)
as_sub_account_exported f _ = none

abbrev pub as_main_wallet_updated : (Text → Text → Event) → List Value → Option Event
as_main_wallet_updated f (Value.word n ∷ Value.word w ∷ []) = some (f n w)
as_main_wallet_updated f _ = none

abbrev pub as_reclaim_finalize_blocked :
    (Text → Text → BlockReason → Event) → List Value → Option Event
as_reclaim_finalize_blocked f (Value.word n ∷ Value.word a ∷ Value.word s2 ∷ []) =
    some (f n a (read_reason s2))
as_reclaim_finalize_blocked f _ = none

abbrev pub as_mother_set : (Text → Text → MotherSource → Event) → List Value → Option Event
as_mother_set f (Value.word u ∷ Value.word m ∷ Value.word s2 ∷ []) = some (f u m (read_source s2))
as_mother_set f _ = none

abbrev pub as_mother_cleared : (Text → Text → Text → Event) → List Value → Option Event
as_mother_cleared f (Value.word u ∷ Value.word m ∷ Value.word by ∷ []) = some (f u m by)
as_mother_cleared f _ = none

abbrev pub as_sub_account_retraction_scheduled :
    (Text → ℕ → Text → Event) → List Value → Option Event
as_sub_account_retraction_scheduled f (Value.word n ∷ Value.number at ∷ Value.word by ∷ []) =
    some (f n at by)
as_sub_account_retraction_scheduled f _ = none

abbrev pub as_sub_account_retraction_canceled : (Text → Text → Event) → List Value → Option Event
as_sub_account_retraction_canceled f (Value.word n ∷ Value.word by ∷ []) = some (f n by)
as_sub_account_retraction_canceled f _ = none

abbrev pub as_business_sub_cap_set : (Text → Option ℕ → Text → Event) → List Value → Option Event
as_business_sub_cap_set f (Value.word t ∷ Value.word s1 ∷ Value.word by ∷ []) =
    some (f t (read_decimal s1) by)
as_business_sub_cap_set f _ = none

abbrev pub as_resale_unlock_requested : (Text → Text → Event) → List Value → Option Event
as_resale_unlock_requested f (Value.word a ∷ Value.word by ∷ []) = some (f a by)
as_resale_unlock_requested f _ = none

abbrev pub as_sub_account_listed : (Text → ℕ → Text → Event) → List Value → Option Event
as_sub_account_listed f (Value.word n ∷ Value.word s1 ∷ Value.word o ∷ []) =
    with_amount s1 (λ p. some (f n p o))
as_sub_account_listed f _ = none

abbrev pub as_offer_accepted : (Text → Text → ℕ → Text → Event) → List Value → Option Event
as_offer_accepted f (Value.word n ∷ Value.word b ∷ Value.word s2 ∷ Value.word o ∷ []) =
    with_amount s2 (λ p. some (f n b p o))
as_offer_accepted f _ = none

abbrev pub as_sub_account_sold :
    (Text → Text → Text → Text → ℕ → ℕ → ℕ → Event) → List Value → Option Event
as_sub_account_sold f
      (Value.word n
        ∷ Value.word t
        ∷ Value.word o
        ∷ Value.word b
        ∷ Value.word s4
        ∷ Value.word s5
        ∷ Value.word s6
        ∷ []) =
    with_amount s4 (λ p. with_amount s5 (λ c. with_amount s6 (λ q. some (f n t o b p c q))))
as_sub_account_sold f _ = none

abbrev pub as_sub_account_sale_failed : (Text → Text → Event) → List Value → Option Event
as_sub_account_sale_failed f (Value.word n ∷ Value.word b ∷ []) = some (f n b)
as_sub_account_sale_failed f _ = none
