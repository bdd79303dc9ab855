-- ===== src/Tarl/Strips.antt =====
-- Texts without spaces at their ends, which is what `str.strip` gives
-- (src/trimum_core/tarl_parser.py, lines 31 to 53).
use trimum.Base.{
  ℕ, ◌≡◌, ◌∙◌, refl, ap, inl, inr, Bool, true, false, not, ◌&&◌, ◌||◌, [], ◌∷◌, ◌++◌, any, reverse,
  Text, nonempty, arith, Bool-cases,
}
use mathlib.Core.List.{reverse-append, reverse-reverse}
use trimum.Base.Strings.{is_space, lstrip, strip}

-- The first character is no space.
abbrev pub tight : Text → Bool
tight [] = true
tight (c ∷ s) = not (is_space c)

-- Neither is the last one.
abbrev pub trimmed : Text → Bool
trimmed s = tight s && tight (reverse s)

lstrip-tight : (s : Text) → tight (lstrip s) ≡ true
unfolding lstrip
lstrip-tight [] = refl
lstrip-tight (c ∷ s) = ground (arith, lstrip-tight s)

lstrip_same : (s : Text) → tight s ≡ true → lstrip s ≡ s
unfolding lstrip
lstrip_same [] h = refl
lstrip_same (c ∷ s) h = ground (arith, h)

pub strip_same : (s : Text) → trimmed s ≡ true → strip s ≡ s
unfolding strip
strip_same s h =
    ap (λ t. reverse (lstrip (reverse t))) (lstrip_same s (ground arith))
    ∙ ap reverse (lstrip_same (reverse s) (ground arith))
    ∙ reverse-reverse s

pub tight_append : (s t : Text) → nonempty s ≡ true → tight s ≡ true → tight (s ++ t) ≡ true
tight_append [] t h g = cc
tight_append (c ∷ s) t h g = g

-- The last character stays, when it is no space.
lstrip_snoc : (s : Text) (c : ℕ) → is_space c ≡ false → lstrip (s ++ c ∷ []) ≡ lstrip s ++ c ∷ []
unfolding lstrip
lstrip_snoc [] c h = ground (arith, h)
lstrip_snoc (d ∷ s) c h = elim (Bool-cases (is_space d)) [
  | inl q ↦ rw q (lstrip_snoc s c h)
  | inr q ↦ rw q refl
]

strip_of_tight : (s : Text) → tight s ≡ true → tight (reverse (lstrip (reverse s))) ≡ true
unfolding lstrip
strip_of_tight [] h = refl
strip_of_tight (c ∷ s) h =
    let spot : is_space c ≡ false = ground arith in
    let e : reverse (lstrip (reverse (c ∷ s))) ≡ c ∷ reverse (lstrip (reverse s)) =
      ap (λ t. reverse (lstrip t)) (reverse-append (c ∷ []) s)
      ∙ ap reverse (lstrip_snoc (reverse s) c spot)
      ∙ reverse-append (lstrip (reverse s)) (c ∷ []) in
    ap tight e ∙ h

pub strip-trimmed : (s : Text) → trimmed (strip s) ≡ true
unfolding strip
strip-trimmed s =
    let first = strip_of_tight (lstrip s) (lstrip-tight s) in
    let last : tight (reverse (reverse (lstrip (reverse (lstrip s))))) ≡ true =
      ap tight (reverse-reverse (lstrip (reverse (lstrip s))))
      ∙ lstrip-tight (reverse (lstrip s)) in
    ground (arith, first, last)

pub any-append : (p : ℕ → Bool) (s t : Text) → any p (s ++ t) ≡ (any p s || any p t)
any-append p [] t = refl
any-append p (c ∷ s) t = ground (arith, any-append p s t)

any-reverse : (p : ℕ → Bool) (s : Text) → any p (reverse s) ≡ any p s
any-reverse p [] = refl
any-reverse p (c ∷ s) =
    ap (any p) (reverse-append (c ∷ []) s)
    ∙ ground (arith, any-append p (reverse s) (c ∷ []), any-reverse p s)

any-lstrip : (p : ℕ → Bool) (s : Text) → any p s ≡ false → any p (lstrip s) ≡ false
unfolding lstrip
any-lstrip p [] h = refl
any-lstrip p (c ∷ s) h = ground (arith, any-lstrip p s)

-- Stripping brings no new character.
pub any-strip : (p : ℕ → Bool) (s : Text) → any p s ≡ false → any p (strip s) ≡ false
unfolding strip
any-strip p s h =
    let left = any-lstrip p s h in
    let right = any-lstrip p (reverse (lstrip s)) (any-reverse p (lstrip s) ∙ left) in
    any-reverse p (lstrip (reverse (lstrip s))) ∙ right
