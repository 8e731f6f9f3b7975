-- ===== src/System/Gas.antt =====
-- The static gas of the largest promises stays below the network's 300 for one transaction.
use hos_tla.Base.{◌*◌, ◌≤◌, ◌≡◌, List, [], ◌∷◌, arith, Text, length, ok, Result-cases, inl, inr}
use hos_tla.Types.{AccountId, PublicKey}
use hos_tla.Types.Names.{sub_account_key}
use hos_tla.Registry.{Env, Registry, Outcome, Promise, PendingBuy, static_gas, gas_of_calls}
use hos_tla.Reclaim.{reclaim_finalize, reclaim_destination, balance_queries, finalize_promise}
use hos_tla.Marketplace.{buy_sub_account, resolve_and_lock_sale, buy_promise, settle_transfer}
use hos_tla.System.Network.{Network, start, Reach}
use hos_tla.System.Configuration.{always-IsConfigured}

query_gas : (a : AccountId) (l : List AccountId) → gas_of_calls (balance_queries a l) ≡ 5 * length l
query_gas a [] = omega arith
query_gas a (x ∷ l) = omega (arith, query_gas a l)

finalize_gas :
    (a : AccountId) (n : Text) (d : AccountId) (l : List AccountId)
    → length l ≤ 40
    → static_gas (finalize_promise a n d l) ≤ 300
finalize_gas a n d [] le = omega arith
finalize_gas a n d (x ∷ l) le = omega (arith, query_gas (sub_account_key a n) (x ∷ l))

buy_gas :
    (k : Text) (b : PendingBuy) (l : List AccountId)
    → length l ≤ 40
    → static_gas (buy_promise k b l) ≤ 300
unfolding settle_transfer
buy_gas k b [] le = omega arith
buy_gas k b (x ∷ l) le = omega (arith, query_gas k (x ∷ l))

reclaim_gas :
    (env : Env) (a : AccountId) (n : Text) (s : Registry) (p : Promise)
    → length s.ft_allowlist ≤ 40
    → reclaim_finalize env a n s ≡ ok p
    → static_gas p ≤ 300
unfolding reclaim_finalize
reclaim_gas env a n s p le h = elim (Result-cases (reclaim_destination env a n s)) [
  | inl (d, e) ↦ ground (arith, finalize_gas a n d s.ft_allowlist le)
  | inr (c, e) ↦ ground arith
]

-- In every state that the deployed contract reaches, the static gas of the calls and the callback
-- that a request to delete an account makes is at most 300 Tgas, what one transaction can have.
pub reclaim_fits :
    (admin : AccountId) (net : Network) (env : Env) (a : AccountId) (n : Text) (p : Promise)
    → Reach (start admin) net
    → reclaim_finalize env a n net.registry ≡ ok p
    → static_gas p ≤ 300
reclaim_fits admin net env a n p r h =
    reclaim_gas env a n net.registry p (always-IsConfigured admin net r).ft_bounded h

purchase_gas :
    (env : Env) (a : AccountId) (n : Text) (k : PublicKey) (s : Registry) (o : Outcome)
    → length s.ft_allowlist ≤ 40
    → buy_sub_account env a n k s ≡ ok o
    → static_gas o.promise ≤ 300
unfolding buy_sub_account
purchase_gas env a n k s o le h =
    let key = sub_account_key a n in
    elim (Result-cases (resolve_and_lock_sale key env.predecessor env.attached_deposit s)) [
      | inl ((price, s1), e) ↦
          let b : PendingBuy = record {
            tla_id = a;
            name = n;
            buyer = env.predecessor;
            new_owner_key = k;
            price = price;
            deposit = env.attached_deposit;
          } in
          ground (arith, buy_gas key b s1.ft_allowlist)
      | inr (c, e) ↦ ground arith
    ]

-- In every reached state the calls and the callback of a purchase fit into one transaction as
-- well.
pub purchase_fits :
    (admin : AccountId) (net : Network) (env : Env) (a : AccountId) (n : Text) (k : PublicKey)
    (o : Outcome)
    → Reach (start admin) net
    → buy_sub_account env a n k net.registry ≡ ok o
    → static_gas o.promise ≤ 300
purchase_fits admin net env a n k o r h =
    purchase_gas env a n k net.registry o (always-IsConfigured admin net r).ft_bounded h
