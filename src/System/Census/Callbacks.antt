-- ===== src/System/Census/Callbacks.antt =====
-- Every callback keeps the tally of a TLA, as long as what it takes away is there.
use hos_tla.Base.{
  ℕ, ◌+◌, ◌-◌, ◌≤◌, ◌≡◌, Bool, true, false, arith, Text, Option, some, if◌then◌else◌, eq_iff,
  eq_refl, ok, Option-cases, Bool-cases, inl, inr, not, ◌∙◌,
}
use hos_tla.Base.Maps.{get, remove, contains_key, get-insert, get-remove}
use hos_tla.Base.Maps.Sums.{remove-IsMap, sum_by-remove}
use hos_tla.Types.{AccountId, SubAccountEntry}
use hos_tla.Types.Names.{sub_account_key}
use hos_tla.Registry.{Env, Registry, Promise, Callback, add_pending_refund}
use hos_tla.Rental.{on_sub_account_created}
use hos_tla.Business.{business_count_decrement, decrement_if_business}
use hos_tla.Reclaim.{on_reclaim_finalized, on_export_settled}
use hos_tla.Marketplace.Sale.{
  on_sub_account_sold, on_buy_balances_checked, clear_settling, abort_sale,
}
use hos_tla.System.{Ending, resolve}
use hos_tla.System.World.{Pending}
use hos_tla.System.World.Requests.{owes, entered}
use hos_tla.System.Census.{kind, is_counted, under, names_of, count, Tally, IsCapped}
use hos_tla.System.Census.Kinds.{resolve-kind}
use hos_tla.System.Census.Rentals.{one_of}
use hos_tla.System.Census.Calls.{same-Tally}
use hos_tla.System.Census.Updates.{SameNames, replaced-SameNames}

decremented :
    (b tla : AccountId) (s : Registry)
    → count b (decrement_if_business tla s)
      ≡ count b s - (if is_counted (kind tla s) then one_of tla b else 0)
unfolding decrement_if_business business_count_decrement
decremented b tla s = elim (Option-cases (get tla s.tlas)) [
  | inl e ↦ ground (arith, e)
  | inr (x, e) ↦ ground (
    arith,
    e,
    eq_iff tla b,
    get-remove tla b s.business_sub_count,
    get-insert tla b (count tla s - 1) s.business_sub_count,
  )
]

decrement-others :
    (tla : AccountId) (s : Registry)
    → ((decrement_if_business tla s).sub_accounts ≡ s.sub_accounts)
      × ((decrement_if_business tla s).tlas ≡ s.tlas)
unfolding decrement_if_business business_count_decrement
decrement-others tla s = ground arith

-- An entry of a TLA is taken away, and its count lowered.
removed-Tally :
    (b tla : AccountId) (at : Text) (x : SubAccountEntry) (s t : Registry)
    → get at s.sub_accounts ≡ some x
    → x.tla_id ≡ tla
    → t.sub_accounts ≡ remove at s.sub_accounts
    → count b t ≡ count b s - (if is_counted (kind tla s) then one_of tla b else 0)
    → kind b t ≡ kind b s
    → Tally b s
    → Tally b t
removed-Tally b tla at x s t e there u c same y =
    let fewer = sum_by-remove (under b) at s.sub_accounts y.is_map in
    let less : names_of b t + one_of tla b ≡ names_of b s = ground (arith, fewer, e, there, u) in
    record {
      is_map = rw u (remove-IsMap at s.sub_accounts y.is_map);
      none_yet = λ n. ground (arith, less, same, y.none_yet);
      counted = ground (arith, less, same, c, y.counted, eq_iff tla b);
    }

-- The entries are under the TLAs that they are taken to be under.
abbrev pub IsRead : Registry → Type 0
IsRead s =
    (tla name : Text) (x : SubAccountEntry)
    → get (sub_account_key tla name) s.sub_accounts ≡ some x
    → x.tla_id ≡ tla

there_is :
    (at : Text) (s : Registry)
    → 1 ≤ entered at s
    → (x : SubAccountEntry) × (get at s.sub_accounts ≡ some x)
there_is at s h = elim (Option-cases (get at s.sub_accounts)) [
  | inl e ↦ absurd (ground (arith, e))
  | inr (x, e) ↦ (x, e)
]

module _ (env : Env) (b tla : AccountId) (name : Text) (s t : Registry) (y : Tally b s)
    (r : IsRead s) where
  failed-Tally :
      (payer : AccountId) (rent attached : ℕ)
      → on_sub_account_created false tla name payer rent attached s ≡ ok t
      → 1 ≤ entered (sub_account_key tla name) s
      → Tally b t
  unfolding on_sub_account_created add_pending_refund
  failed-Tally payer rent attached h there =
      let at = sub_account_key tla name in
      let (x, e) = there_is at s there in
      let s1 = record s { sub_accounts = remove at s.sub_accounts } in
      let (subs, tlas) = decrement-others tla s1 in
      let d = decremented b tla s1 in
      removed-Tally b tla at x s t e (r tla name x e) (ground (arith, subs)) (ground (arith, d))
        (ground (arith, tlas)) y

  finalized-Tally :
      (d : AccountId)
      → on_reclaim_finalized true tla name d s ≡ t
      → 1 ≤ entered (sub_account_key tla name) s
      → Tally b t
  unfolding on_reclaim_finalized
  finalized-Tally d h there =
      let at = sub_account_key tla name in
      let (x, e) = there_is at s there in
      let s1 = record s {
        sub_accounts = remove at s.sub_accounts;
        listings = remove at s.listings;
        accepted_offers = remove at s.accepted_offers;
        sub_account_count = s.sub_account_count - 1;
      } in
      let (subs, tlas) = decrement-others tla s1 in
      let c = decremented b tla s1 in
      removed-Tally b tla at x s t e (r tla name x e) (ground (arith, subs)) (ground (arith, c))
        (ground (arith, tlas)) y

  exported-Tally :
      on_export_settled true tla name s ≡ t → 1 ≤ entered (sub_account_key tla name) s → Tally b t
  unfolding on_export_settled contains_key
  exported-Tally h there =
      let at = sub_account_key tla name in
      let (x, e) = there_is at s there in
      let s1 = record s {
        sub_accounts = remove at s.sub_accounts;
        listings = remove at s.listings;
        accepted_offers = remove at s.accepted_offers;
        sub_account_count = s.sub_account_count - 1;
      } in
      let (subs, tlas) = decrement-others tla s1 in
      let c = decremented b tla s1 in
      removed-Tally b tla at x s t e (r tla name x e) (ground (arith, subs, e))
        (ground (arith, c, e)) (ground (arith, tlas, e)) y

  sold-SameNames :
      (buyer : AccountId) (price deposit : ℕ)
      → on_sub_account_sold true tla name buyer price deposit s ≡ t
      → SameNames b s t
  unfolding on_sub_account_sold clear_settling
  sold-SameNames buyer price deposit h =
      let at = sub_account_key tla name in
      elim (Option-cases (get at s.sub_accounts)) [
        | inl e ↦ record {
          is_map = ground (arith, y.is_map);
          names = ground arith;
          counts = ground arith;
        }
        | inr (x, e) ↦
            replaced-SameNames b at x (record x { owner = buyer; main_wallet = buyer }) s t y.is_map
              e (ground arith) (ground arith) (ground arith)
      ]

-- Whether a callback takes an entry away or hands it to a buyer.
abbrev moves : Bool → Callback → Bool
moves success (Callback.on_sub_account_created _ _ _ _ _) = not success
moves success (Callback.on_reclaim_finalized _ _ _) = success
moves success (Callback.on_export_settled _ _) = success
moves success (Callback.on_sub_account_sold _ _ _ _ _) = success
moves success _ = false

still-SameNames :
    (env : Env) (e : Ending) (b : AccountId) (cb : Callback) (s t : Registry) (p : Option Promise)
    → moves e.success cb ≡ false
    → resolve env e cb s ≡ ok (t, p)
    → Tally b s
    → SameNames b s t
unfolding resolve on_reclaim_finalized on_export_settled on_sub_account_sold clear_settling
    on_sub_account_created add_pending_refund on_buy_balances_checked abort_sale
still-SameNames env e b (Callback.on_claim_refund_settled c n) s t p u h y =
    ground (arith, y.is_map)
still-SameNames env e b (Callback.on_buy_balances_checked c l) s t p u h y =
    ground (arith, y.is_map)
still-SameNames env e b (Callback.on_sub_account_created a n w r d) s t p u h y =
    ground (arith, y.is_map)
still-SameNames env e b _ s t p u h y = ground (arith, y.is_map)

moved-Tally :
    (env : Env) (e : Ending) (b : AccountId) (cb : Callback) (s t : Registry) (p : Option Promise)
    → moves e.success cb ≡ true
    → resolve env e cb s ≡ ok (t, p)
    → IsRead s
    → ((key : Text) → owes key (Pending.answered e.success cb) ≤ entered key s)
    → Tally b s
    → Tally b t
unfolding resolve
moved-Tally env e b (Callback.on_sub_account_created tla n w q d) s t p u h r there y =
    let at = sub_account_key tla n in
    failed-Tally env b tla n s t y r w q d (ground arith) (ground (arith, there at, eq_refl at))
moved-Tally env e b (Callback.on_reclaim_finalized tla n d) s t p u h r there y =
    let at = sub_account_key tla n in
    finalized-Tally env b tla n s t y r d (ground arith) (ground (arith, there at, eq_refl at))
moved-Tally env e b (Callback.on_export_settled tla n) s t p u h r there y =
    let at = sub_account_key tla n in
    exported-Tally env b tla n s t y r (ground arith) (ground (arith, there at, eq_refl at))
moved-Tally env e b (Callback.on_sub_account_sold tla n w q d) s t p u h r there y =
    same-Tally b s t y (sold-SameNames env b tla n s t y r w q d (ground arith))
      (λ k a. resolve-kind env e b (Callback.on_sub_account_sold tla n w q d) s t p h ∙ a)
moved-Tally env e b cb s t p u h r there y = absurd (ground arith)

pub resolve-Tally :
    (env : Env) (e : Ending) (b : AccountId) (cb : Callback) (s t : Registry) (p : Option Promise)
    → resolve env e cb s ≡ ok (t, p)
    → IsRead s
    → ((key : Text) → owes key (Pending.answered e.success cb) ≤ entered key s)
    → Tally b s
    → Tally b t
resolve-Tally env e b cb s t p h r there y = elim (Bool-cases (moves e.success cb)) [
  | inr still ↦
      same-Tally b s t y (still-SameNames env e b cb s t p still h y)
        (λ k a. resolve-kind env e b cb s t p h ∙ a)
  | inl moved ↦ moved-Tally env e b cb s t p moved h r there y
]

pub resolve-IsCapped :
    (env : Env) (e : Ending) (b : AccountId) (cb : Callback) (s t : Registry) (p : Option Promise)
    → resolve env e cb s ≡ ok (t, p)
    → IsCapped b s
    → IsCapped b t
unfolding resolve
resolve-IsCapped env e b (Callback.on_claim_refund_settled c n) s t p h k =
    ground (arith, k.everyone, k.own)
resolve-IsCapped env e b _ s t p h k = ground (arith, k.everyone, k.own)
