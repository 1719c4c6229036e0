-- ===== src/Permission/Inherit.antt =====
-- What inheritance means, as a relation, and the two routines of the code that compute it: the
-- memoised recursion over a map of parents, and the walk up the rows.
use qtable_server.Base.{
  ℕ, zero, suc, ◌<◌, String, Option, none, some, ◌≡◌, refl, sym, ◌∙◌, subst, inl, inr, arith,
  eq_iff, ◌==◌, string_eq, Bool-cases, Option-cases, Dict, lookup, insert, lookup-insert,
}
use qtable_server.Permission.{parent_of, resolve_permission_for_item, remember}

-- A permission of an item: its own override, else its parent's, else the fallback at a root.
pub data Resolves (parents : Dict (Option String)) (overrides : Dict String) (fallback : String)
    : String → String → Type 0 where
  own : {i p : String} → lookup i overrides ≡ some p → Resolves parents overrides fallback i p
  root :
      {i p : String}
      → lookup i overrides ≡ none
      → parent_of parents i ≡ none
      → p ≡ fallback
      → Resolves parents overrides fallback i p
  inherit :
      {i j p : String}
      → lookup i overrides ≡ none
      → parent_of parents i ≡ some j
      → Resolves parents overrides fallback j p
      → Resolves parents overrides fallback i p

module _ {parents : Dict (Option String)} {overrides : Dict String} {fallback : String} where
  same_parent :
      {j k q : String}
      → some j ≡ some k
      → Resolves parents overrides fallback k q
      → Resolves parents overrides fallback j q
  same_parent {j} {k} e d = let jk : j ≡ k = cc in rw jk d

  -- At most one permission is inherited.
  pub Resolves-unique :
      {i p q : String}
      → Resolves parents overrides fallback i p
      → Resolves parents overrides fallback i q
      → p ≡ q
  Resolves-unique (own e) (own e') = cc
  Resolves-unique (own e) (root e' r f) = cc
  Resolves-unique (own e) (inherit e' r d) = cc
  Resolves-unique (root e r f) (own e') = cc
  Resolves-unique (root e r f) (root e' r' f') = cc
  Resolves-unique (root e r f) (inherit e' r' d) = cc
  Resolves-unique (inherit e r d) (own e') = cc
  Resolves-unique (inherit e r d) (root e' r' f) = cc
  Resolves-unique (inherit {j = j} e r d) (inherit {j = k} e' r' d') =
      Resolves-unique d (same_parent (sym r ∙ r') d')

-- What the memo remembers is right.
pub record IsSound (parents : Dict (Option String)) (overrides : Dict String) (fallback : String)
    (memo : Dict String) : Type 0 where
  pub at_key : (i p : String) → lookup i memo ≡ some p → Resolves parents overrides fallback i p

module _ (parents : Dict (Option String)) (overrides : Dict String) (fallback : String) where
  IsSound-insert :
      (i p : String) (memo : Dict String)
      → IsSound parents overrides fallback memo
      → Resolves parents overrides fallback i p
      → IsSound parents overrides fallback (insert i p memo)
  IsSound-insert i p memo s d = record {
    at_key = λ j q h. elim (Bool-cases (i == j)) [
      | inl same ↦ at_same j q ((eq_iff i j).0 same) (cc (lookup-insert i j p memo, same, h))
      | inr other ↦ s.at_key j q (ground (arith, lookup-insert i j p memo))
    ];
  }
    where
      at_same : (j q : String) → i ≡ j → p ≡ q → Resolves parents overrides fallback j q
      at_same j q ij pq = rw (← ij, ← pq) d

  -- What a call returns, with the relation and the memo that it leaves.
  abbrev pub Answers : String → Option (String × Dict String) → Type 0
  Answers item_id result =
      (p : String) × (memo' : Dict String) × (result ≡ some (p, memo'))
      × Resolves parents overrides fallback item_id p
      × IsSound parents overrides fallback memo'

  answer_new :
      (i p : String) (memo : Dict String)
      → IsSound parents overrides fallback memo
      → Resolves parents overrides fallback i p
      → Answers i (remember i (some (p, memo)))
  unfolding remember
  answer_new i p memo s d = (p, insert i p memo, refl, d, IsSound-insert i p memo s d)

  answer_up :
      (i j : String) (r : Option (String × Dict String))
      → lookup i overrides ≡ none
      → parent_of parents i ≡ some j
      → Answers j r
      → Answers i (remember i r)
  unfolding remember
  answer_up i j none e up (p, m, h, d, s) = cc
  answer_up i j (some (p', m')) e up (p, m, h, d, s) =
      (p, insert i p m, ground arith, inherit e up d, IsSound-insert i p m s (inherit e up d))

  resolve_memo :
      (fuel : ℕ) (i p : String) (memo : Dict String)
      → lookup i memo ≡ some p
      → resolve_permission_for_item (suc fuel) i parents overrides fallback memo ≡ some (p, memo)
  unfolding resolve_permission_for_item
  resolve_memo fuel i p memo e = rw (e, resolve_permission_for_item)

  resolve_own :
      (fuel : ℕ) (i p : String) (memo : Dict String)
      → lookup i memo ≡ none
      → lookup i overrides ≡ some p
      → resolve_permission_for_item (suc fuel) i parents overrides fallback memo
        ≡ remember i (some (p, memo))
  unfolding resolve_permission_for_item
  resolve_own fuel i p memo e o = rw (e, o, resolve_permission_for_item)

  resolve_top :
      (fuel : ℕ) (i : String) (memo : Dict String)
      → lookup i memo ≡ none
      → lookup i overrides ≡ none
      → parent_of parents i ≡ none
      → resolve_permission_for_item (suc fuel) i parents overrides fallback memo
        ≡ remember i (some (fallback, memo))
  unfolding resolve_permission_for_item
  resolve_top fuel i memo e o t = rw (e, o, t, resolve_permission_for_item)

  resolve_up :
      (fuel : ℕ) (i j : String) (memo : Dict String)
      → lookup i memo ≡ none
      → lookup i overrides ≡ none
      → parent_of parents i ≡ some j
      → resolve_permission_for_item (suc fuel) i parents overrides fallback memo
        ≡ remember i (resolve_permission_for_item fuel j parents overrides fallback memo)
  unfolding resolve_permission_for_item
  resolve_up fuel i j memo e o t = rw (e, o, t, resolve_permission_for_item)

  -- On parents without a cycle the recursion ends, returns what is inherited, and leaves a memo
  -- that is right: the memo changes the cost of the call and never its result.
  pub resolve_sound :
      (rank : String → ℕ)
      → ((i j : String) → parent_of parents i ≡ some j → rank j < rank i)
      → (fuel : ℕ) (item_id : String) (memo : Dict String) → rank item_id < fuel
      → IsSound parents overrides fallback memo
      → Answers item_id (resolve_permission_for_item fuel item_id parents overrides fallback memo)
  resolve_sound rank down zero item_id memo h s = elim h [ ]
  resolve_sound rank down (suc fuel) item_id memo h s = elim (Option-cases (lookup item_id memo)) [
    | inl new ↦ elim (Option-cases (lookup item_id overrides)) [
      | inl free ↦ elim (Option-cases (parent_of parents item_id)) [
        | inl top ↦
            subst (Answers item_id) (sym (resolve_top fuel item_id memo new free top))
              (answer_new item_id fallback memo s (root free top refl))
        | inr (j, up) ↦ subst (Answers item_id) (sym (resolve_up fuel item_id j memo new free up)) (
            answer_up item_id j _ free up
              (resolve_sound rank down fuel j memo (omega (arith, down item_id j up)) s))
      ]
      | inr (p, mine) ↦
          subst (Answers item_id) (sym (resolve_own fuel item_id p memo new mine))
            (answer_new item_id p memo s (own mine))
    ]
    | inr (p, old) ↦
        subst (Answers item_id) (sym (resolve_memo fuel item_id p memo old))
          (p, memo, refl, s.at_key item_id p old, s)
  ]
