-- ===== src/Views/Pages.antt =====
-- The pages of the listing of TLAs.
use hos_tla.Base.{
  ℕ, zero, suc, ◌+◌, ◌^◌, ◌≤◌, ◌<◌, ◌≡◌, refl, ap, List, [], ◌∷◌, ◌++◌, arith, length, as_usize,
}
use hos_tla.Types.{AccountId, TlaEntry, FeeConfig}
use hos_tla.Registry.{Registry}
use hos_tla.Views.{page, to_tla_view, view_entries, list_tlas, get_stats}

page_join {ℓ} :
    {A : Type ℓ} (from a b : ℕ) (xs : List A)
    → page from (a + b) xs ≡ page from a xs ++ page (from + a) b xs
unfolding page
page_join from a b [] = ground arith
page_join zero zero b (x ∷ xs) = ground arith
page_join zero (suc a) b (x ∷ xs) = ground (arith, page_join zero a b xs)
page_join (suc from) a b (x ∷ xs) = ground (arith, page_join from a b xs)

as_usize-small : (n : ℕ) → n < 2 ^ 32 → as_usize n ≡ n
as_usize-small n h = omega arith

view_entries-append :
    (now : ℕ) (config : FeeConfig) (xs ys : List (AccountId × TlaEntry))
    → view_entries now config (xs ++ ys) ≡ view_entries now config xs ++ view_entries now config ys
view_entries-append now config [] ys = refl
view_entries-append now config ((id, e) ∷ xs) ys =
    ap (λ rest. to_tla_view now id e config ∷ rest) (view_entries-append now config xs ys)

page_whole {ℓ} : {A : Type ℓ} (n : ℕ) (xs : List A) → length xs ≤ n → page 0 n xs ≡ xs
unfolding page
page_whole n [] h = ground arith
page_whole zero (x ∷ xs) h = absurd (omega arith)
page_whole (suc n) (x ∷ xs) h = ground (arith, page_whole n xs)

length-view_entries :
    (now : ℕ) (config : FeeConfig) (xs : List (AccountId × TlaEntry))
    → length (view_entries now config xs) ≡ length xs
length-view_entries now config [] = refl
length-view_entries now config ((id, e) ∷ xs) = omega (arith, length-view_entries now config xs)

-- Below 2^32, a page of `a + b` TLAs is the page of `a` followed by the page of `b` that starts
-- where it ends; and one page of `n` TLAs, where there are no more than `n`, has as many of them as
-- `get_stats` counts.
pub pages_join :
    (now from a b n : ℕ) (s : Registry)
    → from + a + b < 2 ^ 32
    → n < 2 ^ 32
    → length s.tlas ≤ n
    → (list_tlas now from (a + b) s ≡ list_tlas now from a s ++ list_tlas now (from + a) b s)
      × (length (list_tlas now 0 n s) ≡ (get_stats s).tla_count)
unfolding list_tlas get_stats
pages_join now from a b n s small few enough =
    let f = as_usize-small from (omega arith) in
    let fa = as_usize-small (from + a) (omega arith) in
    let ab = as_usize-small (a + b) (omega arith) in
    let a' = as_usize-small a (omega arith) in
    let b' = as_usize-small b (omega arith) in
    let n' = as_usize-small n few in
    (
      rw (f, fa, ab, a', b')
          (rw (page_join from a b s.tlas)
            (view_entries-append now s.fee_config (page from a s.tlas) (page (from + a) b s.tlas))),
      rw n' (rw (page_whole n s.tlas enough) (length-view_entries now s.fee_config s.tlas)),
    )
