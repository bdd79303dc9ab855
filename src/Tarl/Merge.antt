-- ===== src/Tarl/Merge.antt =====
-- What `serialize` and `merge_snapshot` of src/trimum_core/tarl_parser.py (lines 105 to 124 and 230 to
-- 253) keep of the lines they are given.
use trimum.Base.{
  ◌≡◌, ◌∙◌, refl, ap, sym, inl, inr, true, false, Option, none, some, List, [], ◌∷◌, ◌==◌, ==_iff,
  All, if◌then◌else◌, Text, same, nonempty, arith, Bool-cases,
}
use trimum.Base.Strings.{strip}
use trimum.Base.Dict.{Dict, lookup, insert, Distinct}
use trimum.Tarl.Lines.{
  Pair, onto_head, split_spaces, onto_key, cut_colon, keep, pairs_of, split_kv, store_all,
  parse_line, pair_leb, place, sorted_items, field, serialize, merge_snapshot,
}
use trimum.Tarl.Strips.{trimmed, strip-trimmed, any-strip}
use trimum.Tarl.Fields.{has_blank, has_colon, sound, with_keys, split_kv-join}
use trimum.Tarl.Sorted.{
  or_else, lookup-sorted_items, sorted_items-Distinct, store_all-Distinct, lookup-store_all,
  lookup-with_keys, with_keys-Distinct,
}

abbrev pub Sound : List Pair → Type 0
Sound ps = All (λ p. sound p ≡ true) ps

pieces_unblank : (s : Text) → All (λ t. has_blank t ≡ false) (split_spaces s)
unfolding split_spaces
pieces_unblank [] = (refl, tt)
pieces_unblank (c ∷ s) = elim (Bool-cases (c == b' ')) [
  | inl q ↦ rw q (refl, pieces_unblank s)
  | inr q ↦ rw q (onto (split_spaces s) q (pieces_unblank s))
]
  where
    onto :
        (ws : List Text)
        → (c == b' ') ≡ false
        → All (λ t. has_blank t ≡ false) ws
        → All (λ t. has_blank t ≡ false) (onto_head c ws)
    onto [] q h = (ground (arith, q), tt)
    onto (w ∷ ws) q h = (ground (arith, q, h.0), h.1)

-- The two parts of a field that is cut.
cut_parts : (f : Text) (p : Pair) → cut_colon f ≡ some p → (f ≡ field p) × (has_colon p.0 ≡ false)
unfolding cut_colon
cut_parts [] p h = cc
cut_parts (c ∷ s) p h = elim (Bool-cases (c == b':')) [
  | inl q ↦
      let h' = rw q at h in
      let colon : c ≡ b':' = ground (arith, ==_iff c b':') in
      let here : ([], s) ≡ p = some_inj ([], s) p h' in rw (sym here, colon) (refl, refl)
  | inr q ↦ onto (cut_colon s) refl (cut_parts s) q (rw q at h)
]
  where
    some_inj : (a b : Pair) → some a ≡ some b → a ≡ b
    some_inj a b e = cc

    onto :
        (o : Option Pair)
        → cut_colon s ≡ o
        → ((r : Pair) → cut_colon s ≡ some r → (s ≡ field r) × (has_colon r.0 ≡ false))
        → (c == b':') ≡ false
        → onto_key c o ≡ some p
        → ((c ∷ s) ≡ field p) × (has_colon p.0 ≡ false)
    onto none e ih q g = cc
    onto (some r) e ih q g =
        let (whole, no_colon) = ih r e in
        let here : (c ∷ r.0, r.1) ≡ p = some_inj (c ∷ r.0, r.1) p g in
        rw (sym here) (ap (λ t. c ∷ t) whole, ground (arith, q, no_colon))

pairs-Sound : (fs : List Text) → All (λ t. has_blank t ≡ false) fs → Sound (pairs_of fs)
unfolding pairs_of
pairs-Sound [] h = tt
pairs-Sound (f ∷ fs) h = kept (cut_colon (strip f)) refl (pairs-Sound fs h.1)
  where
    kept :
        (o : Option Pair)
        → cut_colon (strip f) ≡ o
        → Sound (pairs_of fs)
        → Sound (keep o (pairs_of fs))
    kept none e rest = rest
    kept (some p) e rest =
        let (whole, no_colon) = cut_parts (strip f) p e in
        let ends : trimmed (field p) ≡ true = ap trimmed (sym whole) ∙ strip-trimmed f in
        let unblank : has_blank (field p) ≡ false =
          ap has_blank (sym whole) ∙ any-strip (λ c. c == b' ') f h.0 in
        (ground (arith, no_colon, ends, unblank), rest)

split-Sound : (line : Text) → Sound (split_kv line)
unfolding split_kv
split-Sound line = elim (Bool-cases (nonempty (strip line))) [
  | inl q ↦ rw q (pairs-Sound (split_spaces (strip line)) (pieces_unblank (strip line)))
  | inr q ↦ rw q tt
]

insert-Sound : (p : Pair) (d : Dict Text) → sound p ≡ true → Sound d → Sound (insert p.0 p.1 d)
unfolding insert
insert-Sound p [] h g = (h, tt)
insert-Sound p (q ∷ d) h g = elim (Bool-cases (same p.0 q.0)) [
  | inl e ↦ rw e (h, g.1)
  | inr e ↦ rw e (g.0, insert-Sound p d h g.1)
]

store_all-Sound : (ps : List Pair) (d : Dict Text) → Sound ps → Sound d → Sound (store_all ps d)
unfolding store_all
store_all-Sound [] d h g = g
store_all-Sound (p ∷ ps) d h g = store_all-Sound ps (insert p.0 p.1 d) h.1 (insert-Sound p d h.0 g)

place-Sound : (p : Pair) (ps : List Pair) → sound p ≡ true → Sound ps → Sound (place p ps)
unfolding place
place-Sound p [] h g = (h, tt)
place-Sound p (q ∷ ps) h g = elim (Bool-cases (pair_leb p q)) [
  | inl e ↦ rw e (h, g)
  | inr e ↦ rw e (g.0, place-Sound p ps h g.1)
]

sorted-Sound : (d : Dict Text) → Sound d → Sound (sorted_items d)
unfolding sorted_items
sorted-Sound [] h = tt
sorted-Sound (p ∷ d) h = place-Sound p (sorted_items d) h.0 (sorted-Sound d h.1)

-- What is read of a dictionary that is written: its values under the keys that are not empty.
pub parse_line-serialize :
    (k : Text) (d : Dict Text)
    → Distinct d
    → Sound d
    → lookup k (parse_line (serialize d)) ≡ (if nonempty k then lookup k d else none)
unfolding parse_line serialize lookup
parse_line-serialize k d h g =
    let ps = sorted_items d in
    let read = split_kv-join ps (sorted-Sound d g) in
    let kept = with_keys-Distinct ps (sorted_items-Distinct d h) in
    ap (λ l. lookup k (store_all l [])) read
    ∙ ground (
      arith,
      lookup-store_all k (with_keys ps) [] kept,
      lookup-with_keys k ps,
      lookup-sorted_items k d h,
      nothing,
    )
  where
    nothing : lookup {V = Text} k [] ≡ none
    nothing = refl

parse-Distinct : (line : Text) → Distinct (parse_line line)
unfolding parse_line
parse-Distinct line = store_all-Distinct (split_kv line) [] tt

parse-Sound : (line : Text) → Sound (parse_line line)
unfolding parse_line
parse-Sound line = store_all-Sound (split_kv line) [] (split-Sound line) tt

-- Reading what was written of a line gives the line's values again, but for one under the empty key.
pub parse_line-again :
    (k line : Text)
    → lookup k (parse_line (serialize (parse_line line)))
      ≡ (if nonempty k then lookup k (parse_line line) else none)
parse_line-again k line =
    parse_line-serialize k (parse_line line) (parse-Distinct line) (parse-Sound line)

-- The line that is merged says under each key that is not empty, also under `snapshot`, what the
-- child's line says, or else what the parent's says; under the empty key it says nothing.
pub lookup-merge_snapshot :
    (k parent child : Text)
    → lookup k (parse_line (merge_snapshot parent child)) ≡ (
        if nonempty k
        then or_else (lookup k (parse_line child)) (lookup k (parse_line parent))
        else none)
unfolding merge_snapshot
lookup-merge_snapshot k parent child =
    let c = parse_line child in
    let p = parse_line parent in
    let both = store_all c p in
    ground (
      arith,
      parse_line-serialize k both (store_all-Distinct c p (parse-Distinct parent))
          (store_all-Sound c p (parse-Sound child) (parse-Sound parent)),
      lookup-store_all k c p (parse-Distinct child),
    )
