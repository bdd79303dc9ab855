-- ===== src/Tarl/Messages.antt =====
-- `parse_multi`, `serialize_multi`, `match_prefix` and `build_snapshot` of
-- src/trimum_core/tarl_parser.py (lines 78 to 102, 127 to 141 and 167 to 227). The lines of a text keep
-- their ends here, which are stripped.
use trimum.Base.{Bool, List, [], ◌∷◌, ◌++◌, if◌then◌else◌, Text, codes, nonempty}
use trimum.Base.Dict.{Dict, insert}
use trimum.Base.Strings.{strip}
use trimum.Patch.Lines.{split_lines}
use trimum.Tarl.Lines.{parse_line, serialize}
use trimum.Tarl.Match.{extract_prefix, is_found}

abbrev pub keep_message : Dict Text → List (Dict Text) → List (Dict Text)
keep_message [] ms = ms
keep_message (p ∷ d) ms = (p ∷ d) ∷ ms

unfoldable pub messages_of : List Text → List (Dict Text)
unfolding strip parse_line
messages_of [] = []
messages_of (l ∷ ls) =
    let rest = messages_of ls in
    if nonempty (strip l) then keep_message (parse_line (strip l)) rest else rest

unfoldable pub parse_multi : Text → List (Dict Text)
unfolding messages_of split_lines
parse_multi text = messages_of (split_lines text)

-- `"\n".join(ls)`
abbrev pub join_after_break : Text → List Text → Text → Text
join_after_break l [] rest = l
join_after_break l (_ ∷ _) rest = l ++ b'\n' ∷ rest

unfoldable pub join_breaks : List Text → Text
join_breaks [] = []
join_breaks (l ∷ ls) = join_after_break l ls (join_breaks ls)

-- `serialize(m) for m in messages if m`
unfoldable pub lines_of : List (Dict Text) → List Text
unfolding serialize
lines_of [] = []
lines_of ([] ∷ ms) = lines_of ms
lines_of ((p ∷ d) ∷ ms) = serialize (p ∷ d) ∷ lines_of ms

unfoldable pub serialize_multi : List (Dict Text) → Text
unfolding lines_of join_breaks
serialize_multi ms = join_breaks (lines_of ms)

unfoldable pub match_prefix : Text → Text → Bool
unfolding extract_prefix
match_prefix text k = is_found (extract_prefix text k)

-- `if value: data[key] = value`
abbrev pub set_nonempty : Text → Text → Dict Text → Dict Text
set_nonempty k v d = if nonempty v then insert k v d else d

unfoldable pub build_snapshot : Text → Text → Text → Text → Text → Text → Text
unfolding serialize
build_snapshot ctx_id workspace error target permission artifacts = serialize (
    set_nonempty (codes "artifacts") artifacts (
      set_nonempty (codes "permission") permission (
        set_nonempty (codes "target") target (
          set_nonempty (codes "error") error
            (set_nonempty (codes "workspace") workspace ((codes "snapshot", ctx_id) ∷ []))))))
