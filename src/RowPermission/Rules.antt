-- ===== src/RowPermission/Rules.antt =====
-- Storing, reading and protecting the row policy of a table (app/services/row_permissions.py).
use qtable_server.Base.{
  String, Bool, true, false, not, Option, none, some, List, [], ◌∷◌, ◌≡◌, ◌↔◌, refl, sym, ap, ◌∙◌,
  subst, ◌&&◌, ◌||◌, ◌==◌, string_eq, if◌then◌else◌, find, arith, eq_iff, inl, inr, Bool-cases,
  Option-cases, any, find-holds, contains,
}
use qtable_server.Base.Result.{ok, >>=-eq-ok, ok_inj}
use qtable_server.RowPermission.{
  RowDb, TableField, row_permission_modes, TableRowPermissionPolicy, Policy, PolicyError,
  policy_dict, get_row_permission_policy, write_policy, save_policy, or_raise,
  set_row_permission_policy, normalize_mode, checked_member_field,
}
use qtable_server.Text.{strip, lower_eq}
use qtable_server.RowPermission.Access.{
  ensure_permission_field_change_safe, names_field, leaves_member,
}

find-write_policy :
    (row : TableRowPermissionPolicy) (t : String) (rows : List TableRowPermissionPolicy)
    → find (λ p. p.table_id == t) (write_policy row rows)
      ≡ (if row.table_id == t then some row else find (λ p. p.table_id == t) rows)
unfolding write_policy
find-write_policy row t [] = refl
find-write_policy row t (p ∷ rows) = ground (
  arith,
  eq_iff p.table_id row.table_id,
  eq_iff p.table_id t,
  eq_iff row.table_id t,
  find-write_policy row t rows,
)

get-save_policy :
    (db : RowDb) (row : TableRowPermissionPolicy) (t : String)
    → get_row_permission_policy (save_policy db row).0 t
      ≡ (if row.table_id == t then (save_policy db row).1 else get_row_permission_policy db t)
unfolding save_policy get_row_permission_policy
get-save_policy db row t = elim (Bool-cases (row.table_id == t)) [
  | inl here ↦ rw here (ap policy_dict (find-write_policy row t db.policies ∙ rw here))
  | inr other ↦ rw other (ap policy_dict (find-write_policy row t db.policies ∙ rw other))
]

-- What a call that succeeded wrote: a mode that is one of the three, and a field that the check
-- of the member field let pass.
set-saves :
    (db : RowDb) (table_id mode : String) (field_id : Option String) (db' : RowDb) (policy : Policy)
    → set_row_permission_policy db table_id mode field_id ≡ ok (db', policy)
    → (m : String) × (f : Option String) × (normalize_mode mode ≡ some m)
      × (checked_member_field db table_id m field_id ≡ ok f)
      × (save_policy db (record { table_id = table_id; mode = m; member_field_id = f })
          ≡ (db', policy))
unfolding set_row_permission_policy
set-saves db table_id mode field_id db' policy h =
    let (m, e, h₁) = >>=-eq-ok (or_raise (normalize_mode mode) PolicyError.invalid_mode) _ h in
    let (f, c, h₂) = >>=-eq-ok (checked_member_field db table_id m field_id) _ h₁ in
    (m, f, raised (normalize_mode mode) m e, c, ok_inj h₂)
  where
    raised :
        (o : Option String) (m : String) → or_raise o PolicyError.invalid_mode ≡ ok m → o ≡ some m
    raised none m e = cc
    raised (some a) m e = cc

abbrev pub is_member_field : String → String → List TableField → Bool
is_member_field table_id id fields =
    any (λ f. f.table_id == table_id && f.id == id && f.type == "member") fields

-- The member field of a policy: the one asked for, a member field of the table.
abbrev pub IsFieldAsked : RowDb → String → Option String → Option String → Bool → Type 0
IsFieldAsked db table_id asked kept false = kept ≡ none
IsFieldAsked db table_id asked kept true =
    (id : String) × (asked ≡ some id)
    × (kept ≡ some id)
    × (not (id == "") && is_member_field table_id id db.fields ≡ true)

-- The policy is the one asked for.
pub record IsAsked (db : RowDb) (table_id mode : String) (asked : Option String) (policy : Policy)
    : Type 0 where
  pub mode_asked : lower_eq (strip mode) policy.mode ≡ true
  pub mode_known : contains policy.mode row_permission_modes ≡ true
  pub field_asked :
      IsFieldAsked db table_id asked policy.member_field_id (policy.mode == "member_field")
  pub on_unless_all : policy.enabled ≡ not (policy.mode == "all")

normalize_mode-known :
    (mode m : String)
    → normalize_mode mode ≡ some m
    → (lower_eq (strip mode) m ≡ true) × (contains m row_permission_modes ≡ true)
unfolding normalize_mode
normalize_mode-known mode m h = elim (Bool-cases (lower_eq (strip mode) "all")) [
  | inl a ↦ known "all" a refl (rw a at h)
  | inr a ↦ elim (Bool-cases (lower_eq (strip mode) "creator")) [
    | inl b ↦ known "creator" b refl (rw (a, b) at h)
    | inr b ↦ elim (Bool-cases (lower_eq (strip mode) "member_field")) [
      | inl c ↦ known "member_field" c refl (rw (a, b, c) at h)
      | inr c ↦ absurd (cc (rw (a, b, c) at h))
    ]
  ]
]
  where
    known :
        (k : String)
        → lower_eq (strip mode) k ≡ true
        → contains k row_permission_modes ≡ true
        → ◌≡◌ {A = Option String} (some k) (some m)
        → (lower_eq (strip mode) m ≡ true) × (contains m row_permission_modes ≡ true)
    known k fits listed e =
        let same : k ≡ m = cc in
        subst (λ n. (lower_eq (strip mode) n ≡ true) × (contains n row_permission_modes ≡ true))
          same (fits, listed)

found-is_member_field :
    (table_id id : String) (fields : List TableField) (field : TableField)
    → find (λ f. f.table_id == table_id && f.id == id) fields ≡ some field
    → field.type == "member" ≡ true
    → is_member_field table_id id fields ≡ true
found-is_member_field table_id id [] field h member = cc
found-is_member_field table_id id (f ∷ fields) field h member =
    elim (Bool-cases (f.table_id == table_id && f.id == id)) [
      | inl here ↦
          let same : f ≡ field = some_field (rw here at h) in
          let typed : f.type == "member" ≡ true = ap (λ g. g.type == "member") same ∙ member in
          ground (arith, here, typed)
      | inr other ↦
          let later = found-is_member_field table_id id fields field (rw other at h) member in
          ground (arith, later)
    ]
  where
    some_field : {a b : TableField} → ◌≡◌ {A = Option TableField} (some a) (some b) → a ≡ b
    some_field e = cc

checked_member_field-IsFieldAsked :
    (db : RowDb) (table_id m : String) (asked f : Option String)
    → checked_member_field db table_id m asked ≡ ok f
    → IsFieldAsked db table_id asked (if m == "member_field" then f else none) (m == "member_field")
unfolding checked_member_field
checked_member_field-IsFieldAsked db table_id m none f h = elim (Bool-cases (m == "member_field")) [
  | inr other ↦ rw other refl
  | inl member ↦ absurd (cc (rw member at h))
]
checked_member_field-IsFieldAsked db table_id m (some id) f h =
    elim (Bool-cases (m == "member_field")) [
      | inr other ↦ rw other refl
      | inl member ↦ elim (Bool-cases (id == "")) [
        | inl blank ↦ absurd (cc (rw (member, blank) at h))
        | inr named ↦
            elim (Option-cases (find (λ g. g.table_id == table_id && g.id == id) db.fields)) [
              | inl missing ↦ absurd (cc (rw (member, named, missing) at h))
              | inr (field, there) ↦ elim (Bool-cases (field.type == "member")) [
                | inr typed ↦ absurd (cc (rw (member, named, there, typed) at h))
                | inl typed ↦
                    let here =
                      find-holds (λ g. g.table_id == table_id && g.id == id) db.fields field
                        there in
                    let same : field.id ≡ id = ground (arith, here, eq_iff field.id id) in
                    let kept : f ≡ some id =
                      sym (ok_inj (rw (member, named, there, typed) at h)) ∙ ap some same in
                    rw member (
                      id,
                      refl,
                      kept,
                      ground (
                        arith,
                        named,
                        found-is_member_field table_id id db.fields field there typed,
                      ),
                    )
              ]
            ]
      ]
    ]

saved-IsAsked :
    (db : RowDb) (table_id mode m : String) (asked f : Option String)
    → normalize_mode mode ≡ some m
    → checked_member_field db table_id m asked ≡ ok f
    → IsAsked db table_id mode asked
        (save_policy db (record { table_id = table_id; mode = m; member_field_id = f })).1
unfolding save_policy policy_dict
saved-IsAsked db table_id mode m asked f e c =
    let (fits, listed) = normalize_mode-known mode m e in
    rw listed (record {
      mode_asked = fits;
      mode_known = listed;
      field_asked = checked_member_field-IsFieldAsked db table_id m asked f c;
      on_unless_all = refl;
    })

-- A policy that is set is the one asked for: its mode is the mode asked for, read without spaces and
-- in lower case, which is one of the three; by member field it names the field asked for, a member
-- field of the table, and else no field; and it is on unless its mode is "all". It is what later
-- reads of that table see, and no other table's policy changes.
pub get-set_row_permission_policy :
    (db : RowDb) (table_id mode : String) (field_id : Option String) (db' : RowDb) (policy : Policy)
    (t : String)
    → set_row_permission_policy db table_id mode field_id ≡ ok (db', policy)
    → IsAsked db table_id mode field_id policy
      × (get_row_permission_policy db' t
          ≡ (if table_id == t then policy else get_row_permission_policy db t))
get-set_row_permission_policy db table_id mode field_id db' policy t h =
    let (m, f, e, c, saved) = set-saves db table_id mode field_id db' policy h in
    subst
      (λ p.
        IsAsked db table_id mode field_id p.1
        × (get_row_permission_policy p.0 t
            ≡ (if table_id == t then p.1 else get_row_permission_policy db t)))
      saved
      (
        saved-IsAsked db table_id mode m field_id f e c,
        get-save_policy db (record { table_id = table_id; mode = m; member_field_id = f }) t,
      )

-- While a table's policy goes by a member field, the guard lets no call delete that field or give
-- it another type, and it stops no change of any other field.
pub ensure_permission_field_change_safe_lem :
    (db : RowDb) (table_id field_id : String) (deleting : Bool) (next_type : Option String)
    → let policy = get_row_permission_policy db table_id in
      (ensure_permission_field_change_safe db table_id field_id deleting next_type ≡ ok tt) ↔ (
        ((policy.mode == "member_field")
          && (names_field policy.member_field_id field_id && (deleting || leaves_member next_type)))
        ≡ false)
unfolding ensure_permission_field_change_safe
ensure_permission_field_change_safe_lem db table_id field_id deleting next_type = ground arith
