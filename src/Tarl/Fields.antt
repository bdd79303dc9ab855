-- ===== src/Tarl/Fields.antt =====
-- A line of fields is read back as its pairs (src/trimum_core/tarl_parser.py, lines 31 to 53 and 105
-- to 124).
use trimum.Base.{
  ◌≡◌, ◌∙◌, refl, ap, inl, inr, Bool, true, false, not, ◌&&◌, some, List, [], ◌∷◌, ◌++◌, ◌==◌, any,
  All, reverse, if◌then◌else◌, Text, nonempty, arith, Bool-cases,
}
use mathlib.Core.List.{reverse-append, append_assoc}
use trimum.Base.Strings.{lstrip, strip, join_spaced}
use trimum.Tarl.Lines.{Pair, split_spaces, cut_colon, pairs_of, split_kv, field, fields_of}
use trimum.Tarl.Strips.{tight, trimmed, strip_same, tight_append}

abbrev pub has_blank : Text → Bool
has_blank t = any (λ c. c == b' ') t

abbrev pub has_colon : Text → Bool
has_colon t = any (λ c. c == b':') t

-- A pair as a line gives it.
abbrev pub sound : Pair → Bool
sound p = not (has_colon p.0) && not (has_blank (field p)) && trimmed (field p)

-- The pairs that `serialize` writes.
abbrev pub with_keys : List Pair → List Pair
with_keys [] = []
with_keys (p ∷ ps) = if nonempty p.0 then p ∷ with_keys ps else with_keys ps

cut-field : (k v : Text) → has_colon k ≡ false → cut_colon (k ++ b':' ∷ v) ≡ some (k, v)
unfolding cut_colon
cut-field [] v h = refl
cut-field (c ∷ k) v h = let rest = cut-field k v (ground arith) in rw rest (ground arith)

field-nonempty : (p : Pair) → nonempty (field p) ≡ true
field-nonempty p = on p.0 p.1
  where
    on : (k v : Text) → nonempty (k ++ b':' ∷ v) ≡ true
    on [] v = refl
    on (c ∷ k) v = refl

split_one : (w : Text) → has_blank w ≡ false → split_spaces w ≡ w ∷ []
unfolding split_spaces
split_one [] h = refl
split_one (c ∷ w) h = let rest = split_one w (ground arith) in rw rest (ground arith)

split_more :
    (w rest : Text) → has_blank w ≡ false → split_spaces (w ++ b' ' ∷ rest) ≡ w ∷ split_spaces rest
unfolding split_spaces
split_more [] rest h = refl
split_more (c ∷ w) rest h = let more = split_more w rest (ground arith) in rw more (ground arith)

-- The fields of a line: not empty, without blanks, and without spaces at their ends.
abbrev pub tidy : Text → Bool
tidy t = nonempty t && not (has_blank t) && trimmed t

split-join :
    (w : Text) (ws : List Text)
    → All (λ t. tidy t ≡ true) (w ∷ ws)
    → split_spaces (join_spaced (w ∷ ws)) ≡ w ∷ ws
unfolding join_spaced
split-join w [] h = split_one w (ground arith)
split-join w (v ∷ ws) h =
    split_more w (join_spaced (v ∷ ws)) (ground (arith, h.0))
    ∙ ap (λ l. w ∷ l) (split-join v ws h.1)

reverse-nonempty : (s : Text) → nonempty s ≡ true → nonempty (reverse s) ≡ true
reverse-nonempty [] h = cc
reverse-nonempty (c ∷ s) h = ap nonempty (reverse-append (c ∷ []) s) ∙ snoc (reverse s)
  where
    snoc : (t : Text) → nonempty (t ++ c ∷ []) ≡ true
    snoc [] = refl
    snoc (d ∷ t) = refl

-- A line of fields has no space at its ends.
join_ends :
    (w : Text) (ws : List Text)
    → All (λ t. tidy t ≡ true) (w ∷ ws)
    → (nonempty (join_spaced (w ∷ ws)) ≡ true)
      × (nonempty (reverse (join_spaced (w ∷ ws))) ≡ true)
      × (trimmed (join_spaced (w ∷ ws)) ≡ true)
unfolding join_spaced
join_ends w [] h =
    let full : nonempty w ≡ true = ground (arith, h.0) in
    (full, reverse-nonempty w full, ground (arith, h.0))
join_ends w (v ∷ ws) h =
    let full : nonempty w ≡ true = ground (arith, h.0) in
    let (some_rest, rest_full, rest_tight) = join_ends v ws h.1 in
    let rest = join_spaced (v ∷ ws) in
    let back : reverse (w ++ b' ' ∷ rest) ≡ reverse rest ++ b' ' ∷ reverse w =
      reverse-append w (b' ' ∷ rest)
      ∙ ap (λ l. l ++ reverse w) (reverse-append (b' ' ∷ []) rest)
      ∙ append_assoc (reverse rest) (b' ' ∷ []) (reverse w) in
    let first : tight (w ++ b' ' ∷ rest) ≡ true =
      tight_append w (b' ' ∷ rest) full (ground (arith, h.0)) in
    let last : tight (reverse (w ++ b' ' ∷ rest)) ≡ true =
      ap tight back ∙ tight_append (reverse rest) (b' ' ∷ reverse w) rest_full (ground arith) in
    let joined : nonempty (w ++ b' ' ∷ rest) ≡ true = nonempty_append w (b' ' ∷ rest) full in
    (joined, reverse-nonempty (w ++ b' ' ∷ rest) joined, ground (arith, first, last))
  where
    nonempty_append : (s t : Text) → nonempty s ≡ true → nonempty (s ++ t) ≡ true
    nonempty_append [] t h = cc
    nonempty_append (c ∷ s) t h = refl

fields-tidy :
    (ps : List Pair) → All (λ p. sound p ≡ true) ps → All (λ t. tidy t ≡ true) (fields_of ps)
unfolding fields_of
fields-tidy [] h = tt
fields-tidy (p ∷ ps) h = elim (Bool-cases (nonempty p.0)) [
  | inl q ↦ rw q (ground (arith, h.0, field-nonempty p), fields-tidy ps h.1)
  | inr q ↦ rw q (fields-tidy ps h.1)
]

pairs_of-fields :
    (ps : List Pair) → All (λ p. sound p ≡ true) ps → pairs_of (fields_of ps) ≡ with_keys ps
unfolding pairs_of fields_of
pairs_of-fields [] h = refl
pairs_of-fields (p ∷ ps) h = elim (Bool-cases (nonempty p.0)) [
  | inl q ↦
      let same_field = strip_same (field p) (ground (arith, h.0)) in
      let cut = cut-field p.0 p.1 (ground (arith, h.0)) in
      rw (q, same_field, cut) (ap (λ l. p ∷ l) (pairs_of-fields ps h.1))
  | inr q ↦ rw q (pairs_of-fields ps h.1)
]

split_nothing : split_kv (join_spaced []) ≡ []
unfolding split_kv join_spaced strip lstrip
split_nothing = refl

-- What is read of the line that is written of some pairs.
pub split_kv-join :
    (ps : List Pair)
    → All (λ p. sound p ≡ true) ps
    → split_kv (join_spaced (fields_of ps)) ≡ with_keys ps
unfolding split_kv
split_kv-join ps h = on (fields_of ps) (fields-tidy ps h) ∙ pairs_of-fields ps h
  where
    on : (ws : List Text) → All (λ t. tidy t ≡ true) ws → split_kv (join_spaced ws) ≡ pairs_of ws
    on [] g = split_nothing
    on (w ∷ ws) g =
        let (full, back, ends) = join_ends w ws g in
        let line = strip_same (join_spaced (w ∷ ws)) ends in rw (line, full, split-join w ws g) refl
