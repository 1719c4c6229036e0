-- ===== src/Permission/Order.antt =====
-- The order of the permission levels, as `permission_allows` reads it.
use qtable_server.Base.{
  String, true, Option, none, some, ◌≡◌, refl, ◌⊎◌, inl, inr, arith, eq_iff, string_eq, Bool-cases,
}
use qtable_server.Base.Int.{pos, negsuc, ◌≤ℤ◌}
use qtable_server.Permission.{
  permission_order, in_permission_order, normalize_permission, permission_allows,
}

order_default : (p : String) → permission_order p (negsuc 0) ≤ℤ permission_order p (pos 0)
unfolding permission_order
order_default p = ground arith

-- Whatever permits `b` and holds a level that permits `c` is itself enough for `c`: access granted
-- at a level never has to be asked for again at a lower one.
pub allows_trans :
    (a : Option String) (b c : String)
    → permission_allows a b ≡ true
    → permission_allows (some b) c ≡ true
    → permission_allows a c ≡ true
unfolding permission_allows
allows_trans none b c h k = cc
allows_trans (some a) b c h k = ground (arith, order_default b)

known-cases :
    (p : String)
    → in_permission_order p ≡ true
    → (p ≡ "read") ⊎ (p ≡ "update") ⊎ (p ≡ "edit") ⊎ (p ≡ "manage")
unfolding in_permission_order
known-cases p h =
    ground (arith, eq_iff p "read", eq_iff p "update", eq_iff p "edit", eq_iff p "manage")

known-allows :
    (p : String)
    → (p ≡ "read") ⊎ (p ≡ "update") ⊎ (p ≡ "edit") ⊎ (p ≡ "manage")
    → (permission_allows (some p) "read" ≡ true) × (permission_allows (some p) p ≡ true)
unfolding permission_allows permission_order
known-allows p (inl e) = rw e (refl, refl)
known-allows p (inr (inl e)) = rw e (refl, refl)
known-allows p (inr (inr (inl e))) = rw e (refl, refl)
known-allows p (inr (inr (inr e))) = rw e (refl, refl)

-- Normalisation gives a level that is at least "read" and permits itself, whatever was stored.
pub normalize-allows :
    (p : Option String)
    → (permission_allows (some (normalize_permission p)) "read" ≡ true)
      × (permission_allows (some (normalize_permission p)) (normalize_permission p) ≡ true)
normalize-allows none = unfold normalize_permission in known-allows "read" (inl refl)
normalize-allows (some p) = elim (Bool-cases (in_permission_order p)) [
  | inl known ↦ unfold normalize_permission in rw known (known-allows p (known-cases p known))
  | inr other ↦ unfold normalize_permission in rw other (known-allows "read" (inl refl))
]
