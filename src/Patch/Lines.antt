-- ===== src/Patch/Lines.antt =====
-- `str.splitlines`, as src/trimum_core/patch_ops.py calls it, and `"".join`.
use trimum.Base.{
  ℕ, ◌≡◌, refl, ap, ◌∙◌, inl, inr, Bool, false, not, ◌&&◌, ◌||◌, List, [], ◌∷◌, ◌++◌, if◌then◌else◌,
  ◌==◌, leb, Text, Bool-cases,
}

-- The characters at which Python ends a line.
unfoldable pub is_break : ℕ → Bool
is_break c =
    (leb 10 c && leb c 13) || (leb 28 c && leb c 30) || c == 0x85 || c == 0x2028 || c == 0x2029

abbrev pub starts_newline : Text → Bool
starts_newline [] = false
starts_newline (c ∷ _) = c == 10

-- A line ends behind this character: "\r\n" is one end.
unfoldable pub ends_line : ℕ → Text → Bool
unfolding is_break
ends_line c s = is_break c && not (c == 13 && starts_newline s)

abbrev pub onto_first : ℕ → List Text → List Text
onto_first c [] = (c ∷ []) ∷ []
onto_first c (l ∷ ls) = (c ∷ l) ∷ ls

-- `s.splitlines(keepends=True)`
unfoldable pub split_lines : Text → List Text
unfolding ends_line
split_lines [] = []
split_lines (c ∷ s) =
    let ls = split_lines s in if ends_line c s then (c ∷ []) ∷ ls else onto_first c ls

-- `"".join(ls)`
unfoldable pub join_lines : List Text → Text
join_lines [] = []
join_lines (l ∷ ls) = l ++ join_lines ls

join-onto_first : (c : ℕ) (ls : List Text) → join_lines (onto_first c ls) ≡ c ∷ join_lines ls
unfolding join_lines
join-onto_first c [] = refl
join-onto_first c (l ∷ ls) = refl

-- No character is lost or added by splitting a text into lines.
pub join_lines-split_lines : (s : Text) → join_lines (split_lines s) ≡ s
unfolding split_lines join_lines
join_lines-split_lines [] = refl
join_lines-split_lines (c ∷ s) = elim (Bool-cases (ends_line c s)) [
  | inl e ↦ rw e (ap (λ t. c ∷ t) (join_lines-split_lines s))
  | inr e ↦ rw e (join-onto_first c (split_lines s) ∙ ap (λ t. c ∷ t) (join_lines-split_lines s))
]
