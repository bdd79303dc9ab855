-- ===== src/Base/Texts.antt =====
-- Python texts, as lists of code points, with their equality test.
use Prim.Native.Nat.{ℕ}
use Prim.Native.Char.{code}
use Prim.Native.String.{String}
use mathlib.Core.Path.{◌≡◌, refl}
use mathlib.Core.Logic.{◌↔◌}
use mathlib.Core.Bool.{Bool, true, false, ◌&&◌, ◌||◌}
use mathlib.Core.List.{List, [], ◌∷◌, ◌++◌}
use native.Mathlib.Omega.{arith}
use trimum.Base.Tests.{◌==◌, ltb, if◌then◌else◌}
use trimum.Base.Lists.{any}

abbrev pub Text : Type 0
Text = List ℕ

-- A literal of the source.
abbrev pub codes : String → Text
codes String.[] = []
codes (String.◌∷◌ c s) = code c ∷ codes s

-- `s == t`
unfoldable pub same : Text → Text → Bool
same [] [] = true
same (x ∷ xs) (y ∷ ys) = (x == y) && same xs ys
same _ _ = false

pub same→eq : (s t : Text) → same s t ≡ true → s ≡ t
unfolding same
same→eq [] [] h = refl
same→eq [] (y ∷ ys) h = cc
same→eq (x ∷ xs) [] h = cc
same→eq (x ∷ xs) (y ∷ ys) h = ground (arith, same→eq xs ys)

pub same_refl : (s : Text) → same s s ≡ true
unfolding same
same_refl [] = refl
same_refl (x ∷ xs) = ground (arith, same_refl xs)

pub same_iff : (s t : Text) → (same s t ≡ true) ↔ (s ≡ t)
same_iff s t = (same→eq s t, λ e. rw e (same_refl t))

-- `s.startswith(p)`
unfoldable pub starts_with : Text → Text → Bool
starts_with [] s = true
starts_with (c ∷ p) [] = false
starts_with (c ∷ p) (d ∷ s) = (c == d) && starts_with p s

pub starts_with_append : (p s : Text) → starts_with p (p ++ s) ≡ true
unfolding starts_with
starts_with_append [] s = refl
starts_with_append (c ∷ p) s = ground (arith, starts_with_append p s)

pub starts_with→append : (p s : Text) → starts_with p s ≡ true → (r : Text) × (s ≡ p ++ r)
unfolding starts_with
starts_with→append [] s h = (s, refl)
starts_with→append (c ∷ p) [] h = cc
starts_with→append (c ∷ p) (d ∷ s) h =
    let t : (c ≡ d) × (starts_with p s ≡ true) = ground arith in
    let (r, e) = starts_with→append p s t.1 in (r, cc)

-- `s <= t`
unfoldable pub text_leb : Text → Text → Bool
text_leb [] t = true
text_leb (x ∷ s) [] = false
text_leb (x ∷ s) (y ∷ t) = if ltb x y then true else if x == y then text_leb s t else false

-- Truth of a text: it is not empty.
abbrev pub nonempty : Text → Bool
nonempty [] = false
nonempty (_ ∷ _) = true

-- `s in texts`
abbrev pub member : Text → List Text → Bool
member s ts = any (same s) ts

-- No text stands twice.
abbrev pub Nodup : List Text → Type 0
Nodup [] = Unit
Nodup (t ∷ ts) = (member t ts ≡ false) × Nodup ts

pub member_snoc :
    (n m : Text) (xs : List Text) → member n (xs ++ m ∷ []) ≡ (member n xs || same n m)
member_snoc n m [] = ground arith
member_snoc n m (x ∷ xs) = ground (arith, member_snoc n m xs)

pub Nodup-snoc : (m : Text) (xs : List Text) → Nodup xs → member m xs ≡ false → Nodup (xs ++ m ∷ [])
Nodup-snoc m [] h g = (refl, tt)
Nodup-snoc m (x ∷ xs) h g =
    let rest = Nodup-snoc m xs h.1 (ground arith) in
    (ground (arith, member_snoc x m xs, same_iff x m, same_iff m x, h.0), rest)
