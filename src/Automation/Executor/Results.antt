-- ===== src/Automation/Executor/Results.antt =====
-- The stored results of a run's actions, in the order of the actions
-- (app/services/automation/executor.py).
use qtable_server.Base.{
  ℕ, ◌<◌, true, false, some, List, [], ◌∷◌, ◌++◌, ◌≡◌, refl, sym, subst, ◌∙◌, ◌==◌, nat_eq, ltb,
  if◌then◌else◌, All, any, arith, Bool-cases, inl, inr,
}
use mathlib.Core.List.{append_assoc, append-nil}
use qtable_server.Automation.{ActionResult}
use qtable_server.Automation.ActionLoop.{
  is_done, put_result, existing_results, result_at, is_done_at,
}

-- Every index is above the one before.
abbrev pub Ascending : List ActionResult → Type 0
Ascending [] = Unit
Ascending (r ∷ rs) = All (λ s. r.index < s.index) rs × Ascending rs

pub result_at-put_result :
    (i : ℕ) (r : ActionResult) (rs : List ActionResult)
    → result_at i (put_result r rs) ≡ (if r.index == i then some r else result_at i rs)
unfolding put_result
result_at-put_result i r [] = ground arith
result_at-put_result i r (s ∷ rs) = ground (arith, result_at-put_result i r rs)

All-put_result :
    (n : ℕ) (r : ActionResult) (rs : List ActionResult)
    → n < r.index
    → All (λ s. n < s.index) rs
    → All (λ s. n < s.index) (put_result r rs)
unfolding put_result
All-put_result n r [] h a = (h, tt)
All-put_result n r (s ∷ rs) h a = ground (arith, All-put_result n r rs)

All-lt :
    (m n : ℕ) (rs : List ActionResult)
    → m < n
    → All (λ s. n < s.index) rs
    → All (λ s. m < s.index) rs
All-lt m n [] h a = tt
All-lt m n (s ∷ rs) h a = (omega arith, All-lt m n rs h a.1)

pub put_result-Ascending :
    (r : ActionResult) (rs : List ActionResult) → Ascending rs → Ascending (put_result r rs)
unfolding put_result
put_result-Ascending r [] a = (tt, tt)
put_result-Ascending r (s ∷ rs) a = elim (Bool-cases (r.index == s.index)) [
  | inl here ↦ rw here (subst_index here)
  | inr other ↦ rw other (elim (Bool-cases (ltb r.index s.index)) [
    | inl before ↦ rw before (((ground arith, All-lt r.index s.index rs (ground arith) a.0), a))
    | inr after ↦
        rw after (All-put_result s.index r rs (ground arith) a.0, put_result-Ascending r rs a.1)
  ])
]
  where
    subst_index : (r.index == s.index) ≡ true → Ascending (r ∷ rs)
    subst_index here =
        let same : s.index ≡ r.index = ground arith in
        (subst (λ n. All (λ t. n < t.index) rs) same a.0, a.1)

pub existing_results-Ascending :
    (taken rs : List ActionResult) → Ascending taken → Ascending (existing_results taken rs)
unfolding existing_results
existing_results-Ascending taken [] a = a
existing_results-Ascending taken (r ∷ rs) a =
    existing_results-Ascending (put_result r taken) rs (put_result-Ascending r taken a)

put_result_last :
    (r : ActionResult) (rs : List ActionResult)
    → All (λ s. s.index < r.index) rs
    → put_result r rs ≡ rs ++ r ∷ []
unfolding put_result
put_result_last r [] a = refl
put_result_last r (s ∷ rs) a = ground (arith, put_result_last r rs)

pub any-put_result :
    (r : ActionResult) (rs : List ActionResult)
    → is_done_at r.index rs ≡ false
    → any is_done rs ≡ true
    → any is_done (put_result r rs) ≡ true
unfolding put_result is_done_at
any-put_result r [] h a = absurd (cc)
any-put_result r (s ∷ rs) h a = ground (arith, any-put_result r rs)

below_last :
    (taken : List ActionResult) (r : ActionResult) (rs : List ActionResult)
    → Ascending (taken ++ r ∷ rs)
    → All (λ s. s.index < r.index) taken
below_last [] r rs a = tt
below_last (t ∷ taken) r rs a = (head_below taken a.0, below_last taken r rs a.1)
  where
    head_below :
        (ss : List ActionResult) → All (λ s. t.index < s.index) (ss ++ r ∷ rs) → t.index < r.index
    head_below [] h = h.0
    head_below (s ∷ ss) h = head_below ss h.1

taken_first :
    (taken rs : List ActionResult)
    → Ascending (taken ++ rs)
    → existing_results taken rs ≡ taken ++ rs
unfolding existing_results
taken_first taken [] a = sym (append-nil taken)
taken_first taken (r ∷ rs) a =
    let next : put_result r taken ≡ taken ++ r ∷ [] =
      put_result_last r taken (below_last taken r rs a) in
    let same : (taken ++ r ∷ []) ++ rs ≡ taken ++ r ∷ rs = append_assoc taken (r ∷ []) rs in
    rw next (taken_first (taken ++ r ∷ []) rs (subst Ascending (sym same) a) ∙ same)

-- A list that is in order is read back as it was stored.
pub existing_results-stored : (rs : List ActionResult) → Ascending rs → existing_results [] rs ≡ rs
existing_results-stored rs a = taken_first [] rs a
