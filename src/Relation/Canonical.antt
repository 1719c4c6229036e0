-- ===== src/Relation/Canonical.antt =====
-- The canonical form of a stored relation value (app/services/relation_engine.py).
use qtable_server.Base.{
  ◌+◌, ◌≤◌, String, true, false, List, [], ◌∷◌, ◌++◌, ◌≡◌, refl, sym, ap, ◌∙◌, subst, ◌||◌, ltb,
  map, ◌==◌, string_eq, nat_eq, length, contains, arith, eq_iff, inl, inr, Bool-cases, All,
  length-append,
}
use mathlib.Core.List.{append-nil, append_assoc}
use qtable_server.Base.Result.{ok, err, Result-cases}
use qtable_server.Json.{Json, str, is_null, is_empty_str}
use qtable_server.Text.{strip, char_count}
use qtable_server.Text.Strip.{strip_idem}
use qtable_server.Relation.{
  RelationError, normalize_record_id, collect_ids, max_linked_records, max_record_id_length,
}

-- No text twice.
abbrev pub Distinct : List String → Type 0
Distinct [] = Unit
Distinct (x ∷ xs) = (contains x xs ≡ false) × Distinct xs

-- An id that normalisation leaves alone.
pub record IsRecordId (s : String) : Type 0 where
  pub stripped : strip s ≡ s
  pub nonempty : (s == "") ≡ false
  pub short : char_count s ≤ max_record_id_length

-- Distinct ids, at most as many as may be linked.
pub record IsCanonical (ids : List String) : Type 0 where
  pub each : All IsRecordId ids
  pub distinct : Distinct ids
  pub bounded : length ids ≤ max_linked_records

record_id_facts :
    (t s : String)
    → normalize_record_id (str t) ≡ ok s
    → (strip t ≡ s) × ((strip t == "") ≡ false) × (char_count (strip t) ≤ max_record_id_length)
unfolding normalize_record_id
record_id_facts t s h = ground arith

normalize_record_id-IsRecordId :
    (raw : Json) (s : String) → normalize_record_id raw ≡ ok s → IsRecordId s
unfolding normalize_record_id
normalize_record_id-IsRecordId (str t) s h =
    let (e, full, short) = record_id_facts t s h in
    subst IsRecordId e (record { stripped = strip_idem t; nonempty = full; short = short })
normalize_record_id-IsRecordId raw s h = ground arith

pub IsRecordId-normalize : (s : String) → IsRecordId s → normalize_record_id (str s) ≡ ok s
unfolding normalize_record_id
IsRecordId-normalize s r = rw r.stripped (rw r.nonempty (ground (arith, r.short)))

contains-snoc :
    (y x : String) (xs : List String) → contains y (xs ++ x ∷ []) ≡ (contains y xs || x == y)
contains-snoc y x [] = ground arith
contains-snoc y x (z ∷ xs) = ground (arith, contains-snoc y x xs)

Distinct-snoc :
    (x : String) (xs : List String) → Distinct xs → contains x xs ≡ false → Distinct (xs ++ x ∷ [])
Distinct-snoc x [] d f = (refl, tt)
Distinct-snoc x (z ∷ xs) d f = (
  ground (arith, contains-snoc z x xs, eq_iff x z, eq_iff z x),
  Distinct-snoc x xs d.1 (ground arith),
)

All-snoc :
    (x : String) (xs : List String)
    → All IsRecordId xs
    → IsRecordId x
    → All IsRecordId (xs ++ x ∷ [])
All-snoc x [] a r = (r, tt)
All-snoc x (z ∷ xs) a r = (a.0, All-snoc x xs a.1 r)

IsCanonical-snoc :
    (x : String) (xs : List String)
    → IsCanonical xs
    → IsRecordId x
    → contains x xs ≡ false
    → ltb max_linked_records (length (xs ++ x ∷ [])) ≡ false
    → IsCanonical (xs ++ x ∷ [])
IsCanonical-snoc x xs c r f room = record {
  each = All-snoc x xs c.each r;
  distinct = Distinct-snoc x xs c.distinct f;
  bounded = ground arith;
}

-- The set of ids seen holds the ids collected.
abbrev Agree : List String → List String → Type 0
Agree seen acc = (y : String) → contains y seen ≡ contains y acc

Agree-snoc :
    (x : String) (seen acc : List String) → Agree seen acc → Agree (x ∷ seen) (acc ++ x ∷ [])
Agree-snoc x seen acc a y = ground (arith, a y, contains-snoc y x acc)

-- One round of the loop, on each of its branches.
module _ (raw : Json) (rest : List Json) (seen acc : List String) where
  collect_blank :
      (is_null raw || is_empty_str raw) ≡ true
      → collect_ids (raw ∷ rest) seen acc ≡ collect_ids rest seen acc
  unfolding collect_ids
  collect_blank blank = rw (blank, collect_ids)

  collect_bad :
      (e : RelationError)
      → (is_null raw || is_empty_str raw) ≡ false
      → normalize_record_id raw ≡ err e
      → collect_ids (raw ∷ rest) seen acc ≡ err e
  unfolding collect_ids
  collect_bad e given bad = rw (given, bad, collect_ids)

  module _ (x : String) (given : (is_null raw || is_empty_str raw) ≡ false)
      (good : normalize_record_id raw ≡ ok x) where
    collect_old :
        contains x seen ≡ true → collect_ids (raw ∷ rest) seen acc ≡ collect_ids rest seen acc
    unfolding collect_ids
    collect_old old = rw (given, good, old, collect_ids)

    collect_full :
        contains x seen ≡ false
        → ltb max_linked_records (length (acc ++ x ∷ [])) ≡ true
        → collect_ids (raw ∷ rest) seen acc ≡ err RelationError.too_many_records
    unfolding collect_ids
    collect_full new full = rw (given, good, new, full, collect_ids)

    collect_new :
        contains x seen ≡ false
        → ltb max_linked_records (length (acc ++ x ∷ [])) ≡ false
        → collect_ids (raw ∷ rest) seen acc ≡ collect_ids rest (x ∷ seen) (acc ++ x ∷ [])
    unfolding collect_ids
    collect_new new room = rw (given, good, new, room, collect_ids)

collect_nil : (seen acc ids : List String) → collect_ids [] seen acc ≡ ok ids → acc ≡ ids
unfolding collect_ids
collect_nil seen acc ids h = cc

pub collect_ids-IsCanonical :
    (raws : List Json) (seen acc ids : List String)
    → Agree seen acc
    → IsCanonical acc
    → collect_ids raws seen acc ≡ ok ids
    → IsCanonical ids
collect_ids-IsCanonical [] seen acc ids a c h = subst IsCanonical (collect_nil seen acc ids h) c
collect_ids-IsCanonical (raw ∷ rest) seen acc ids a c h =
    elim (Bool-cases (is_null raw || is_empty_str raw)) [
      | inl blank ↦
          collect_ids-IsCanonical rest seen acc ids a c
            (sym (collect_blank raw rest seen acc blank) ∙ h)
      | inr given ↦ elim (Result-cases (normalize_record_id raw)) [
        | inl (e, bad) ↦ absurd (cc (collect_bad raw rest seen acc e given bad, h))
        | inr (x, good) ↦ elim (Bool-cases (contains x seen)) [
          | inl old ↦
              collect_ids-IsCanonical rest seen acc ids a c
                (sym (collect_old raw rest seen acc x given good old) ∙ h)
          | inr new ↦ elim (Bool-cases (ltb max_linked_records (length (acc ++ x ∷ [])))) [
            | inl full ↦ absurd (cc (collect_full raw rest seen acc x given good new full, h))
            | inr room ↦
                collect_ids-IsCanonical rest (x ∷ seen) (acc ++ x ∷ []) ids
                  (Agree-snoc x seen acc a)
                  (IsCanonical-snoc x acc c (normalize_record_id-IsRecordId raw x good)
                    (sym (a x) ∙ new) room)
                  (sym (collect_new raw rest seen acc x given good new room) ∙ h)
          ]
        ]
      ]
    ]

contains-middle : (x : String) (acc xs : List String) → contains x (acc ++ x ∷ xs) ≡ true
contains-middle x [] xs = ground (arith, eq_iff x x)
contains-middle x (z ∷ acc) xs = ground (arith, contains-middle x acc xs)

Distinct-append-head :
    (acc : List String) (x : String) (xs : List String)
    → Distinct (acc ++ x ∷ xs)
    → contains x acc ≡ false
Distinct-append-head [] x xs d = refl
Distinct-append-head (z ∷ acc) x xs d =
    ground (arith, Distinct-append-head acc x xs d.1, contains-middle x acc xs, eq_iff z x)

-- Collecting ids that are canonical gives them back.
pub collect_ids-str :
    (ids seen acc : List String)
    → Agree seen acc
    → All IsRecordId ids
    → Distinct (acc ++ ids)
    → length acc + length ids ≤ max_linked_records
    → collect_ids (map str ids) seen acc ≡ ok (acc ++ ids)
collect_ids-str [] seen acc a r d room = unfold collect_ids in ap ok (sym (append-nil acc))
collect_ids-str (x ∷ ids) seen acc a r d room =
    collect_new (str x) (map str ids) seen acc x r.0.nonempty (IsRecordId-normalize x r.0)
      (a x ∙ Distinct-append-head acc x ids d) (ground (arith, length-append acc (x ∷ [])))
    ∙ collect_ids-str ids (x ∷ seen) (acc ++ x ∷ []) (Agree-snoc x seen acc a) r.1
        (subst Distinct (sym (append_assoc acc (x ∷ []) ids)) d)
        (omega (arith, length-append acc (x ∷ [])))
    ∙ ap ok (append_assoc acc (x ∷ []) ids)
