-- ===== src/Tarl/Lines.antt =====
-- `_split_kv`, `parse_line`, `serialize`, `extract_prefix` and `merge_snapshot` of
-- src/trimum_core/tarl_parser.py (lines 31 to 164 and 230 to 253). A value is a text.
use trimum.Base.{
  text_leb, ℕ, Bool, ◌||◌, Option, none, some, List, [], ◌∷◌, ◌++◌, ◌==◌, if◌then◌else◌, Text,
  codes, same, nonempty, starts_with,
}
use trimum.Base.Strings.{strip, join_spaced}
use trimum.Base.Dict.{Dict, insert}

abbrev pub Pair : Type 0
Pair = Text × Text

abbrev pub onto_head : ℕ → List Text → List Text
onto_head c [] = (c ∷ []) ∷ []
onto_head c (w ∷ ws) = (c ∷ w) ∷ ws

-- `s.split(" ")`
unfoldable pub split_spaces : Text → List Text
split_spaces [] = [] ∷ []
split_spaces (c ∷ s) = let ws = split_spaces s in if c == b' ' then [] ∷ ws else onto_head c ws

abbrev pub onto_key : ℕ → Option Pair → Option Pair
onto_key c none = none
onto_key c (some p) = some (c ∷ p.0, p.1)

-- `field.find(":")` and the two parts: `none` when there is no colon.
unfoldable pub cut_colon : Text → Option Pair
cut_colon [] = none
cut_colon (c ∷ s) = let rest = cut_colon s in if c == b':' then some ([], s) else onto_key c rest

abbrev pub keep : Option Pair → List Pair → List Pair
keep none ps = ps
keep (some p) ps = p ∷ ps

-- The loop over the fields; a field without a colon is skipped, and so is an empty one.
unfoldable pub pairs_of : List Text → List Pair
unfolding cut_colon strip
pairs_of [] = []
pairs_of (f ∷ fs) = keep (cut_colon (strip f)) (pairs_of fs)

-- `_split_kv`
unfoldable pub split_kv : Text → List Pair
unfolding pairs_of split_spaces
split_kv line = let t = strip line in if nonempty t then pairs_of (split_spaces t) else []

-- `result[key] = value`, for each pair.
unfoldable pub store_all : List Pair → Dict Text → Dict Text
store_all [] d = d
store_all (p ∷ ps) d = store_all ps (insert p.0 p.1 d)

unfoldable pub parse_line : Text → Dict Text
unfolding split_kv store_all
parse_line line = store_all (split_kv line) []

-- The order of two pairs.
unfoldable pub pair_leb : Pair → Pair → Bool
unfolding text_leb
pair_leb p q = if same p.0 q.0 then text_leb p.1 q.1 else text_leb p.0 q.0

unfoldable pub place : Pair → List Pair → List Pair
unfolding pair_leb
place p [] = p ∷ []
place p (q ∷ qs) = if pair_leb p q then p ∷ q ∷ qs else q ∷ place p qs

-- `sorted(data.items())`
unfoldable pub sorted_items : Dict Text → List Pair
unfolding place
sorted_items [] = []
sorted_items (p ∷ d) = place p (sorted_items d)

abbrev pub field : Pair → Text
field p = p.0 ++ b':' ∷ p.1

-- `f"{k}:{v}" ... if k`
unfoldable pub fields_of : List Pair → List Text
fields_of [] = []
fields_of (p ∷ ps) = if nonempty p.0 then field p ∷ fields_of ps else fields_of ps

unfoldable pub serialize : Dict Text → Text
unfolding fields_of sorted_items
serialize d = join_spaced (fields_of (sorted_items d))

-- `merge_snapshot`: `{**parent, **child}`
unfoldable pub merge_snapshot : Text → Text → Text
unfolding serialize parse_line
merge_snapshot parent child = serialize (store_all (parse_line child) (parse_line parent))

-- The loop of `extract_prefix` over the pairs of one line.
unfoldable pub values_under : Text → List Pair → List Text
values_under k [] = []
values_under k (p ∷ ps) =
    if same p.0 k || starts_with (k ++ codes ".") p.0
    then p.1 ∷ values_under k ps
    else values_under k ps
