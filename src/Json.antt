-- ===== src/Json.antt =====
-- Values of a decoded JSON document, and what Python's operators do with them. A float is kept by
-- its integer part, its `str` and its being nonzero, which is all that the code reads of it.
use qtable_server.Base.{
  String, Bool, true, false, not, Option, none, some, List, [], ◌∷◌, ◌≡◌, refl, ap, ◌==◌, string_eq,
  nat_eq, Dict, lookup,
}
use qtable_server.Base.Int.{ℤ, pos, negsuc}

mutual
  pub data Json : Type 0 where
    null : Json
    bool : Bool → Json
    int : ℤ → Json
    real : ℤ → Bool → String → Json
    str : String → Json
    arr : Items → Json
    obj : Members → Json

  pub data Items : Type 0 where
    nil : Items
    cons : Json → Items → Items

  pub data Members : Type 0 where
    end : Members
    member : String → Json → Members → Members

abbrev pub items_list : Items → List Json
items_list nil = []
items_list (cons x xs) = x ∷ items_list xs

abbrev pub list_items : List Json → Items
list_items [] = nil
list_items (x ∷ xs) = cons x (list_items xs)

abbrev pub members_dict : Members → Dict Json
members_dict end = []
members_dict (member k v ms) = (k, v) ∷ members_dict ms

abbrev pub dict_members : Dict Json → Members
dict_members [] = end
dict_members (e ∷ d) = member e.0 e.1 (dict_members d)

pub items_list-list_items : (xs : List Json) → items_list (list_items xs) ≡ xs
items_list-list_items [] = refl
items_list-list_items (x ∷ xs) = ap (λ t. x ∷ t) (items_list-list_items xs)

pub members_dict-dict_members : (d : Dict Json) → members_dict (dict_members d) ≡ d
members_dict-dict_members [] = refl
members_dict-dict_members (e ∷ d) = ap (λ t. e ∷ t) (members_dict-dict_members d)

-- `bool(value)`
unfoldable pub truthy : Json → Bool
truthy null = false
truthy (bool b) = b
truthy (int (pos n)) = not (n == 0)
truthy (int (negsuc n)) = true
truthy (real n nonzero s) = nonzero
truthy (str s) = not (s == "")
truthy (arr nil) = false
truthy (arr (cons x xs)) = true
truthy (obj end) = false
truthy (obj (member k v ms)) = true

-- `d.get(k)` of a decoded object: a missing key reads as `None`.
abbrev pub or_null : Option Json → Json
or_null none = null
or_null (some v) = v

abbrev pub get : String → Dict Json → Json
get k d = or_null (lookup k d)

abbrev pub is_null : Json → Bool
is_null null = true
is_null _ = false

-- `value == ""`
abbrev pub is_empty_str : Json → Bool
is_empty_str (str s) = s == ""
is_empty_str _ = false
