-- ===== src/AutoNumber/Allocate.antt =====
-- Allocation of auto numbers (app/services/auto_number_engine.py): batches follow one another.
use qtable_server.Base.{
  ℕ, zero, suc, ◌+◌, none, some, List, [], ◌∷◌, ◌++◌, ◌≡◌, refl, sym, ap, ◌∙◌, subst, arith,
  string_eq, Dict, lookup, insert, lookup-insert, insert-insert, length,
}
use qtable_server.Base.Int.{ℤ, pos, pos_part, ◌+ℤ◌, ◌≤ℤ◌, +ℤ_parts, int_laws}
use Prim.Native.Nat.add
use mathlib.Core.Path.{ap₂, subst₂}
use qtable_server.Base.Result.{ok, >>=-eq-ok}
use qtable_server.Json.{Json, int, obj, dict_members, get}
use qtable_server.AutoNumber.{
  next_of, range_from, int_of, normalize_auto_number_property, allocate_auto_number_values,
}
use qtable_server.AutoNumber.Normal.{IsNormal, normalize-IsNormal, IsNormal-normalize}

-- Numbers in ascending order, from `low` on and below `high`.
abbrev pub Ascending : ℤ → ℤ → List ℤ → Type 0
Ascending low high [] = low ≤ℤ high
Ascending low high (n ∷ ns) = (low ≤ℤ n) × Ascending (n +ℤ pos 1) high ns

range_from-Ascending :
    (first : ℤ) (amount : ℕ) → Ascending first (first +ℤ pos amount) (range_from first amount)
unfolding range_from
range_from-Ascending first zero = omega int_laws
range_from-Ascending first (suc amount) = (
  omega arith,
  subst (λ h. Ascending (first +ℤ pos 1) h (range_from (first +ℤ pos 1) amount)) (omega int_laws)
      (range_from-Ascending (first +ℤ pos 1) amount),
)

length-range_from : (first : ℤ) (amount : ℕ) → length (range_from first amount) ≡ amount
unfolding range_from
length-range_from first zero = refl
length-range_from first (suc amount) = ap suc (length-range_from (first +ℤ pos 1) amount)

add_pos_zero : (a : ℤ) → a +ℤ pos 0 ≡ a
add_pos_zero a = omega int_laws

add_pos_pos : (x : ℤ) (a b : ℕ) → x +ℤ pos a +ℤ pos b ≡ x +ℤ pos (a + b)
add_pos_pos x a b = omega int_laws

add_pos_suc : (a : ℤ) (n : ℕ) → (a +ℤ pos 1) +ℤ pos n ≡ a +ℤ pos (suc n)
add_pos_suc a n = omega int_laws

range_from-add :
    (first : ℤ) (a b : ℕ)
    → range_from first (a + b) ≡ range_from first a ++ range_from (first +ℤ pos a) b
unfolding range_from
range_from-add first zero b =
    ap (range_from first) (add.zero b) ∙ ap (λ x. range_from x b) (sym (add_pos_zero first))
range_from-add first (suc a) b =
    ap (range_from first) (add.suc a b)
    ∙ ap (λ t. first ∷ t)
        (range_from-add (first +ℤ pos 1) a b
          ∙ ap (λ x. range_from (first +ℤ pos 1) a ++ range_from x b) (add_pos_suc first a))

-- The property after an allocation.
abbrev advanced : Dict Json → ℕ → Dict Json
advanced prop amount = insert "nextNumber" (int (next_of prop +ℤ pos amount)) prop

pub next_of-at : (d : Dict Json) (n : ℤ) → lookup "nextNumber" d ≡ some (int n) → next_of d ≡ n
unfolding int_of
next_of-at d n h = rw (h, get, next_of)

next_of-advanced :
    (prop : Dict Json) (amount : ℕ) → next_of (advanced prop amount) ≡ next_of prop +ℤ pos amount
next_of-advanced prop amount = next_of-at (advanced prop amount) _ (simp lookup-insert)

advanced-advanced :
    (prop : Dict Json) (a b : ℕ) → advanced (advanced prop a) b ≡ advanced prop (a + b)
advanced-advanced prop a b =
    ap (λ n. insert "nextNumber" (int (n +ℤ pos b)) (advanced prop a)) (next_of-advanced prop a)
    ∙ insert-insert "nextNumber" _ _ prop
    ∙ ap (λ n. insert "nextNumber" (int n) prop) (add_pos_pos (next_of prop) a b)

advanced-IsNormal :
    (prop : Dict Json) (amount : ℕ) → IsNormal prop → IsNormal (advanced prop amount)
advanced-IsNormal prop amount n = record {
  prefix = n.prefix;
  digits = n.digits;
  start = n.start;
  next = next_of prop +ℤ pos amount;
  prefix_at = simp lookup-insert n.prefix_at;
  prefix_fits = n.prefix_fits;
  digits_at = simp lookup-insert n.digits_at;
  digits_low = n.digits_low;
  digits_high = n.digits_high;
  start_at = simp lookup-insert n.start_at;
  start_low = n.start_low;
  start_high = n.start_high;
  next_at = simp lookup-insert;
  start_le_next =
      rw (next_of-at prop n.next n.next_at)
        (ground (arith, +ℤ_parts n.next (pos amount), n.start_le_next));
}

again_eq :
    (again d prop : Dict Json) (a : ℕ)
    → normalize_auto_number_property (obj (dict_members d)) none ≡ ok again
    → normalize_auto_number_property (obj (dict_members d)) none ≡ ok d
    → d ≡ advanced prop a
    → again ≡ advanced prop a
again_eq again d prop a e f h = cc

allocate-eq :
    (v : Json) (count : ℤ) (xs : List ℤ) (d : Dict Json)
    → allocate_auto_number_values v count ≡ ok (xs, d)
    → (prop : Dict Json) × (normalize_auto_number_property v none ≡ ok prop)
      × (xs ≡ range_from (next_of prop) (pos_part count))
      × (d ≡ advanced prop (pos_part count))
unfolding allocate_auto_number_values
allocate-eq v count xs d h =
    let (prop, e, r) = >>=-eq-ok (normalize_auto_number_property v none) _ h in
    (prop, e, ground arith, ground arith)

-- A batch holds as many numbers as were asked for (none for a negative count), ascending from the
-- next number before it to the next number after it, and leaves a normal property. So no two
-- numbers of a batch are equal, and none recurs in a batch that follows.
pub allocate-Ascending :
    (v : Json) (count : ℤ) (xs : List ℤ) (d : Dict Json)
    → allocate_auto_number_values v count ≡ ok (xs, d)
    → (prop : Dict Json) × (normalize_auto_number_property v none ≡ ok prop)
      × (length xs ≡ pos_part count)
      × Ascending (next_of prop) (next_of d) xs
      × IsNormal d
allocate-Ascending v count xs d h =
    let (prop, e, ex, ed) = allocate-eq v count xs d h in
    (
      prop,
      e,
      ap length ex ∙ length-range_from (next_of prop) (pos_part count),
      subst₂ (λ high ns. Ascending (next_of prop) high ns)
          (sym (next_of-advanced prop (pos_part count)) ∙ ap next_of (sym ed)) (sym ex)
          (range_from-Ascending (next_of prop) (pos_part count)),
      subst IsNormal (sym ed)
          (advanced-IsNormal prop (pos_part count) (normalize-IsNormal v none prop e)),
    )

allocate-from :
    (v : Json) (prop : Dict Json) (n : ℕ)
    → normalize_auto_number_property v none ≡ ok prop
    → allocate_auto_number_values v (pos n) ≡ ok (range_from (next_of prop) n, advanced prop n)
unfolding allocate_auto_number_values
allocate-from v prop n e = rw e

-- Properties whose next numbers agree are allocated the same numbers.
pub allocate-same :
    (v w : Json) (p q : Dict Json) (n : ℕ)
    → normalize_auto_number_property v none ≡ ok p
    → normalize_auto_number_property w none ≡ ok q
    → next_of p ≡ next_of q
    → (numbers : List ℤ) × (d e : Dict Json) × (allocate_auto_number_values v (pos n)
        ≡ ok (numbers, d))
      × (allocate_auto_number_values w (pos n) ≡ ok (numbers, e))
allocate-same v w p q n at_v at_w same = (
  range_from (next_of p) n,
  advanced p n,
  advanced q n,
  allocate-from v p n at_v,
  rw same (allocate-from w q n at_w),
)

-- Two batches, the second from the property that the first one stored, are the two halves of one
-- batch: no number is skipped between them and the stored property is the same.
pub allocate-allocate :
    (v : Json) (a b : ℕ) (xs ys : List ℤ) (d d' : Dict Json)
    → allocate_auto_number_values v (pos a) ≡ ok (xs, d)
    → allocate_auto_number_values (obj (dict_members d)) (pos b) ≡ ok (ys, d')
    → allocate_auto_number_values v (pos (a + b)) ≡ ok (xs ++ ys, d')
allocate-allocate v a b xs ys d d' first second =
    let (prop, e, ex, ed) = allocate-eq v (pos a) xs d first in
    let (again, e', ey, ed') = allocate-eq (obj (dict_members d)) (pos b) ys d' second in
    let normal =
      subst IsNormal (sym ed) (advanced-IsNormal prop a (normalize-IsNormal v none prop e)) in
    let same : again ≡ advanced prop a =
      again_eq again d prop a e' (IsNormal-normalize d normal) ed in
    let next : next_of again ≡ next_of prop +ℤ pos a = ap next_of same ∙ next_of-advanced prop a in
    allocate-from v prop (a + b) e
    ∙ ap₂ (λ ns p. ok (ns, p))
        (range_from-add (next_of prop) a b
          ∙ ap₂ (λ s t. s ++ t) (sym ex) (ap (λ x. range_from x b) (sym next) ∙ sym ey))
        (sym (advanced-advanced prop a b) ∙ ap (λ p. advanced p b) (sym same) ∙ sym ed')
