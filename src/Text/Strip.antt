-- ===== src/Text/Strip.antt =====
-- Stripping twice is stripping once.
use Prim.Native.Char.{Char}
use qtable_server.Base.{String, true, false, ◌≡◌, refl, ◌∙◌, ap, inl, inr, Bool-cases}
use qtable_server.Text.{is_space, lstrip, rstrip, strip, keep_left}

rstrip-keep_left : (c : Char) (s : String) → rstrip s ≡ s → rstrip (keep_left c s) ≡ keep_left c s
unfolding rstrip
rstrip-keep_left c String.[] h = elim (Bool-cases (is_space c)) [
  | inl space ↦ rw space
  | inr mark ↦ rw mark (rw mark)
]
rstrip-keep_left c (String.◌∷◌ d s) h = rw (h, keep_left)

rstrip_idem : (s : String) → rstrip (rstrip s) ≡ rstrip s
unfolding rstrip
rstrip_idem String.[] = refl
rstrip_idem (String.◌∷◌ c s) = rstrip-keep_left c (rstrip s) (rstrip_idem s)

lstrip-keep_left :
    (c : Char) (s : String) → is_space c ≡ false → lstrip (keep_left c s) ≡ keep_left c s
unfolding lstrip
lstrip-keep_left c String.[] h = rw h (rw h)
lstrip-keep_left c (String.◌∷◌ d s) h = rw h

lstrip_space : (c : Char) (s : String) → is_space c ≡ true → lstrip (String.◌∷◌ c s) ≡ lstrip s
unfolding lstrip
lstrip_space c s h = rw h

lstrip_mark :
    (c : Char) (s : String) → is_space c ≡ false → lstrip (String.◌∷◌ c s) ≡ String.◌∷◌ c s
unfolding lstrip
lstrip_mark c s h = rw h

rstrip_cons : (c : Char) (s : String) → rstrip (String.◌∷◌ c s) ≡ keep_left c (rstrip s)
unfolding rstrip
rstrip_cons c s = refl

lstrip-rstrip-lstrip : (s : String) → lstrip (rstrip (lstrip s)) ≡ rstrip (lstrip s)
lstrip-rstrip-lstrip String.[] = unfold lstrip rstrip in refl
lstrip-rstrip-lstrip (String.◌∷◌ c s) = elim (Bool-cases (is_space c)) [
  | inl space ↦ rw (lstrip_space c s space) (lstrip-rstrip-lstrip s)
  | inr mark ↦ rw (lstrip_mark c s mark) (rw rstrip_cons (lstrip-keep_left c (rstrip s) mark))
]

-- A stripped text has nothing left to strip.
pub strip_idem : (s : String) → strip (strip s) ≡ strip s
unfolding strip
strip_idem s = ap rstrip (lstrip-rstrip-lstrip s) ∙ rstrip_idem (lstrip s)
