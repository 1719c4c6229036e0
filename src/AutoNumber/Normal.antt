-- ===== src/AutoNumber/Normal.antt =====
-- The normal form of an auto-number property (app/services/auto_number_engine.py).
use qtable_server.Base.{
  ℕ, ◌≤◌, String, Option, none, some, ◌≡◌, sym, ap, ◌∙◌, subst, arith, string_eq, Dict, lookup,
  lookup-insert, insert-same,
}
use qtable_server.Base.Int.{ℤ, pos, ◌≤ℤ◌, eq_of_parts}
use qtable_server.Base.Result.{Result, ok, ◌>>=◌, >>=-eq-ok, ok_inj}
use qtable_server.Json.{
  Json, null, int, str, obj, dict_members, members_dict-dict_members, get, or_null,
}
use qtable_server.Text.{char_count}
use qtable_server.AutoNumber.{
  AutoNumberError, property_dict, prefix_of, ranged, next_number, int_of, get_default, max_start,
  max_ℤ, updated, next_of, normalize_auto_number_property,
}

-- What `normalize_auto_number_property` promises of the four keys that it owns.
pub record IsNormal (prop : Dict Json) : Type 0 where
  pub prefix : String
  pub digits : ℤ
  pub start : ℤ
  pub next : ℤ
  pub prefix_at : lookup "prefix" prop ≡ some (str prefix)
  pub prefix_fits : char_count prefix ≤ 64
  pub digits_at : lookup "digits" prop ≡ some (int digits)
  pub digits_low : pos 1 ≤ℤ digits
  pub digits_high : digits ≤ℤ pos 12
  pub start_at : lookup "start" prop ≡ some (int start)
  pub start_low : pos 1 ≤ℤ start
  pub start_high : start ≤ℤ pos max_start
  pub next_at : lookup "nextNumber" prop ≡ some (int next)
  pub start_le_next : start ≤ℤ next

ranged-bounds :
    (v : Json) (low high : ℕ) (a b : AutoNumberError) (n : ℤ)
    → ranged v low high a b ≡ ok n
    → (pos low ≤ℤ n) × (n ≤ℤ pos high)
unfolding ranged
ranged-bounds v low high a b n h = ground arith

prefix_of-fits : (v : Json) (p : String) → prefix_of v ≡ ok p → char_count p ≤ 64
unfolding prefix_of char_count
prefix_of-fits null p h = let e : "" ≡ p = cc in rw (← e) (omega arith)
prefix_of-fits v p h = ground arith

next_number-ge :
    (keep : Option ℤ) (start : ℤ) (prop : Dict Json) → start ≤ℤ next_number keep start prop
unfolding next_number max_ℤ
next_number-ge none start prop = ground arith
next_number-ge (some n) start prop = ground arith

-- What a call that succeeded went through.
record IsUpdate (v : Json) (keep : Option ℤ) (prop : Dict Json) : Type 0 where
  given : Dict Json
  prefix : String
  digits : ℤ
  start : ℤ
  is_dict : property_dict v ≡ ok given
  is_prefix : prefix_of (get_default "prefix" (str "") given) ≡ ok prefix
  is_digits :
      ranged
        (get_default "digits" (int (pos 3)) given)
        1
        12
        AutoNumberError.digits_not_integer
        AutoNumberError.digits_range
      ≡ ok digits
  is_start :
      ranged
        (get_default "start" (int (pos 1)) given)
        1
        max_start
        AutoNumberError.start_not_integer
        AutoNumberError.start_range
      ≡ ok start
  is_updated : prop ≡ updated prefix digits start (next_number keep start given) given

normalize-IsUpdate :
    (v : Json) (keep : Option ℤ) (prop : Dict Json)
    → normalize_auto_number_property v keep ≡ ok prop
    → IsUpdate v keep prop
unfolding normalize_auto_number_property
normalize-IsUpdate v keep prop h = dict_step (>>=-eq-ok (property_dict v) _ h)
  where
    start_of : Dict Json → Result AutoNumberError ℤ
    start_of d =
        ranged (get_default "start" (int (pos 1)) d) 1 max_start AutoNumberError.start_not_integer
          AutoNumberError.start_range

    digits_of : Dict Json → Result AutoNumberError ℤ
    digits_of d =
        ranged (get_default "digits" (int (pos 3)) d) 1 12 AutoNumberError.digits_not_integer
          AutoNumberError.digits_range

    finish : Dict Json → String → ℤ → ℤ → Dict Json
    finish d prefix digits start = updated prefix digits start (next_number keep start d) d

    from_digits : Dict Json → String → ℤ → Result AutoNumberError (Dict Json)
    from_digits d prefix digits = start_of d >>= λ start. ok (finish d prefix digits start)

    from_prefix : Dict Json → String → Result AutoNumberError (Dict Json)
    from_prefix d prefix = digits_of d >>= λ digits. from_digits d prefix digits

    from_dict : Dict Json → Result AutoNumberError (Dict Json)
    from_dict d = prefix_of (get_default "prefix" (str "") d) >>= λ prefix. from_prefix d prefix

    start_step :
        (d : Dict Json) (prefix : String) (digits : ℤ)
        → property_dict v ≡ ok d
        → prefix_of (get_default "prefix" (str "") d) ≡ ok prefix
        → digits_of d ≡ ok digits
        → (start : ℤ) × (start_of d ≡ ok start)
          × (◌≡◌ {A = Result AutoNumberError (Dict Json)}
              (ok (finish d prefix digits start))
              (ok prop))
        → IsUpdate v keep prop
    start_step d prefix digits ed ep eg (start, es, e) = record {
      given = d;
      prefix = prefix;
      digits = digits;
      start = start;
      is_dict = ed;
      is_prefix = ep;
      is_digits = eg;
      is_start = es;
      is_updated = cc;
    }

    digits_step :
        (d : Dict Json) (prefix : String)
        → property_dict v ≡ ok d
        → prefix_of (get_default "prefix" (str "") d) ≡ ok prefix
        → (digits : ℤ) × (digits_of d ≡ ok digits) × (from_digits d prefix digits ≡ ok prop)
        → IsUpdate v keep prop
    digits_step d prefix ed ep (digits, eg, e) =
        start_step d prefix digits ed ep eg (>>=-eq-ok (start_of d) _ e)

    prefix_step :
        (d : Dict Json)
        → property_dict v ≡ ok d
        → (prefix : String) × (prefix_of (get_default "prefix" (str "") d) ≡ ok prefix)
          × (from_prefix d prefix ≡ ok prop)
        → IsUpdate v keep prop
    prefix_step d ed (prefix, ep, e) = digits_step d prefix ed ep (>>=-eq-ok (digits_of d) _ e)

    dict_step :
        (d : Dict Json) × (property_dict v ≡ ok d) × (from_dict d ≡ ok prop) → IsUpdate v keep prop
    dict_step (d, ed, e) =
        prefix_step d ed (>>=-eq-ok (prefix_of (get_default "prefix" (str "") d)) _ e)

-- Such a run, forwards.
normalize_runs :
    (v : Json) (keep : Option ℤ) (given : Dict Json) (prefix : String) (digits start : ℤ)
    → property_dict v ≡ ok given
    → prefix_of (get_default "prefix" (str "") given) ≡ ok prefix
    → ranged
        (get_default "digits" (int (pos 3)) given)
        1
        12
        AutoNumberError.digits_not_integer
        AutoNumberError.digits_range
      ≡ ok digits
    → ranged
        (get_default "start" (int (pos 1)) given)
        1
        max_start
        AutoNumberError.start_not_integer
        AutoNumberError.start_range
      ≡ ok start
    → normalize_auto_number_property v keep
      ≡ ok (updated prefix digits start (next_number keep start given) given)
unfolding normalize_auto_number_property
normalize_runs v keep given prefix digits start ed ep eg es = rw ed (rw ep (rw eg (rw es)))

updated-IsNormal :
    (prefix : String) (digits start next : ℤ) (d : Dict Json)
    → char_count prefix ≤ 64
    → (pos 1 ≤ℤ digits) × (digits ≤ℤ pos 12)
    → (pos 1 ≤ℤ start) × (start ≤ℤ pos max_start)
    → start ≤ℤ next
    → IsNormal (updated prefix digits start next d)
unfolding updated
updated-IsNormal prefix digits start next d pf db sb nb = record {
  prefix = prefix;
  digits = digits;
  start = start;
  next = next;
  prefix_at = simp lookup-insert;
  prefix_fits = pf;
  digits_at = simp lookup-insert;
  digits_low = db.0;
  digits_high = db.1;
  start_at = simp lookup-insert;
  start_low = sb.0;
  start_high = sb.1;
  next_at = simp lookup-insert;
  start_le_next = nb;
}

-- Every normalised property has a short prefix, 1 to 12 digits, a start in range, and a next
-- number that is not below the start, whatever the stored object and the number to preserve are.
pub normalize-IsNormal :
    (v : Json) (keep : Option ℤ) (prop : Dict Json)
    → normalize_auto_number_property v keep ≡ ok prop
    → IsNormal prop
normalize-IsNormal v keep prop h =
    let u = normalize-IsUpdate v keep prop h in
    subst IsNormal (sym u.is_updated) (
      updated-IsNormal u.prefix u.digits u.start _ u.given (prefix_of-fits _ u.prefix u.is_prefix)
        (ranged-bounds _ 1 12 _ _ u.digits u.is_digits)
        (ranged-bounds _ 1 max_start _ _ u.start u.is_start) (next_number-ge keep u.start u.given))

get_default-at :
    (k : String) (v w : Json) (d : Dict Json) → lookup k d ≡ some w → get_default k v d ≡ w
get_default-at k v w d h = rw (h, get_default)

prefix_of-str : (p : String) → char_count p ≤ 64 → prefix_of (str p) ≡ ok p
unfolding prefix_of
prefix_of-str p h = ground arith

ranged-int :
    (n : ℤ) (low high : ℕ) (a b : AutoNumberError)
    → pos low ≤ℤ n
    → n ≤ℤ pos high
    → ranged (int n) low high a b ≡ ok n
unfolding ranged int_of
ranged-int n low high a b l h = ground arith

max_ℤ-le : (a b : ℤ) → a ≤ℤ b → max_ℤ a b ≡ b
unfolding max_ℤ
max_ℤ-le a b h = ground (arith, eq_of_parts a b)

next_number-int :
    (start next : ℤ) (d : Dict Json)
    → lookup "nextNumber" d ≡ some (int next)
    → start ≤ℤ next
    → next_number none start d ≡ next
unfolding next_number int_of
next_number-int start next d h le =
    rw (get_default-at "nextNumber" (int start) (int next) d h, next_number)
      (max_ℤ-le start next le)

updated-same :
    (prop : Dict Json) (n : IsNormal prop) → updated n.prefix n.digits n.start n.next prop ≡ prop
unfolding updated
updated-same prop n = rw (insert-same "prefix" _ prop n.prefix_at) (
    rw (insert-same "digits" _ prop n.digits_at)
      (rw (insert-same "start" _ prop n.start_at) (insert-same "nextNumber" _ prop n.next_at)))

-- A normal property is left as it is: normalising a stored property again changes nothing.
pub IsNormal-normalize :
    (prop : Dict Json)
    → IsNormal prop
    → normalize_auto_number_property (obj (dict_members prop)) none ≡ ok prop
IsNormal-normalize prop n = normalized (updated-same prop n)
  where
    normalized :
        updated n.prefix n.digits n.start n.next prop ≡ prop
        → normalize_auto_number_property (obj (dict_members prop)) none ≡ ok prop
    normalized e =
        normalize_runs (obj (dict_members prop)) none prop n.prefix n.digits n.start
          (unfold property_dict in ap ok (members_dict-dict_members prop))
          (ap prefix_of (get_default-at "prefix" (str "") (str n.prefix) prop n.prefix_at)
            ∙ prefix_of-str n.prefix n.prefix_fits)
          (ap (λ x. ranged x 1 12 AutoNumberError.digits_not_integer AutoNumberError.digits_range)
              (get_default-at "digits" (int (pos 3)) (int n.digits) prop n.digits_at)
            ∙ ranged-int n.digits 1 12 _ _ n.digits_low n.digits_high)
          (ap
              (λ x.
                ranged x 1 max_start AutoNumberError.start_not_integer AutoNumberError.start_range)
              (get_default-at "start" (int (pos 1)) (int n.start) prop n.start_at)
            ∙ ranged-int n.start 1 max_start _ _ n.start_low n.start_high)
        ∙ ap ok (
            ap (λ x. updated n.prefix n.digits n.start x prop)
              (next_number-int n.start n.next prop n.next_at n.start_le_next)
            ∙ e)

ranged-int_value :
    (s n : ℤ) (low high : ℕ) (a b : AutoNumberError) → ranged (int s) low high a b ≡ ok n → s ≡ n
unfolding ranged int_of
ranged-int_value s n low high a b h = ground arith

updated-start :
    (prefix : String) (digits start next : ℤ) (d : Dict Json)
    → get "start" (updated prefix digits start next d) ≡ int start
unfolding updated
updated-start prefix digits start next d = simp lookup-insert

updated-next :
    (prefix : String) (digits start next : ℤ) (d : Dict Json)
    → next_of (updated prefix digits start next d) ≡ next
unfolding updated int_of
updated-next prefix digits start next d =
    ap next_value (updated-next_key prefix digits start next d)
  where
    next_value : Option Json → ℤ
    next_value o = elim (int_of (or_null o)) [ none ↦ pos 0 | some n ↦ n ]

    updated-next_key :
        (p : String) (g t x : ℤ) (e : Dict Json)
        → lookup "nextNumber" (updated p g t x e) ≡ some (int x)
    updated-next_key p g t x e = simp lookup-insert

property_dict-obj :
    (d given : Dict Json) → property_dict (obj (dict_members d)) ≡ ok given → d ≡ given
unfolding property_dict
property_dict-obj d given h = sym (members_dict-dict_members d) ∙ ok_inj h

-- Normalising with a number to preserve, from an object that has a start, keeps both.
pub normalize-preserve :
    (d prop : Dict Json) (s keep : ℤ)
    → lookup "start" d ≡ some (int s)
    → s ≤ℤ keep
    → normalize_auto_number_property (obj (dict_members d)) (some keep) ≡ ok prop
    → (get "start" prop ≡ int s) × (next_of prop ≡ keep)
unfolding next_number
normalize-preserve d prop s keep at le h =
    let u = normalize-IsUpdate (obj (dict_members d)) (some keep) prop h in
    let given : d ≡ u.given = property_dict-obj d u.given u.is_dict in
    let start : s ≡ u.start = ranged-int_value s u.start 1 max_start _ _ (
      ap (λ v. ranged v 1 max_start AutoNumberError.start_not_integer AutoNumberError.start_range)
        (sym (
          get_default-at "start" (int (pos 1)) (int s) u.given
            (ap (lookup "start") (sym given) ∙ at)))
      ∙ u.is_start) in
    (
      ap (get "start") u.is_updated
          ∙ updated-start u.prefix u.digits u.start _ u.given
          ∙ ap int (sym start),
      ap next_of u.is_updated
          ∙ updated-next u.prefix u.digits u.start _ u.given
          ∙ kept u.start start,
    )
  where
    kept : (t : ℤ) → s ≡ t → max_ℤ t keep ≡ keep
    kept t e = max_ℤ-le t keep (subst (λ x. x ≤ℤ keep) e le)
