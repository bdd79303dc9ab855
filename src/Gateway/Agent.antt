-- ===== src/Gateway/Agent.antt =====
-- `_check_agent_permissions` of src/trimum_core/tool_gateway.py (lines 1178 to 1249).
use trimum.Base.{
  ℕ, Bool, true, false, ◌||◌, Option, none, some, List, [], ◌∷◌, ◌++◌, reverse, if◌then◌else◌, ◌==◌,
  any, Text, codes, same, starts_with,
}
use trimum.Base.Strings.{lower, split_from}
use trimum.Gateway.{Permissions, Manifest}

unfoldable pub drop_char : ℕ → Text → Text
drop_char c [] = []
drop_char c (d ∷ t) = if c == d then drop_char c t else d ∷ t

-- `t.rstrip(c)`
unfoldable pub rstrip : ℕ → Text → Text
unfolding drop_char
rstrip c t = reverse (drop_char c (reverse t))

-- `", ".join(ts)`
unfoldable pub join_comma : List Text → Text
join_comma [] = []
join_comma (t ∷ []) = t
join_comma (t ∷ u ∷ ts) = t ++ (codes ", " ++ join_comma (u ∷ ts))

-- `cmd_str.split()[0].lower()`
abbrev pub head_lower : List Text → Text
head_lower [] = []
head_lower (w ∷ ws) = lower w

unfoldable pub first_word : Text → Text
unfolding split_from lower
first_word cmd = head_lower (split_from [] cmd)

-- The tool is `file.read`, `file.write` or another one.
pub data FileTool : Type 0 where
  reads writes : FileTool

unfoldable pub file_tool : Option Text → Option FileTool
unfolding same
file_tool none = none
file_tool (some name) =
    if same name (codes "file.read")
    then some reads
    else if same name (codes "file.write")
    then some writes
    else none

unfoldable pub looks_like_path : Text → Bool
unfolding starts_with
looks_like_path p = any (λ c. c == b'/') p || any (λ c. c == 92) p || starts_with (codes ".") p

unfoldable pub path_words : List Text → List Text
unfolding looks_like_path
path_words [] = []
path_words (p ∷ ps) = if looks_like_path p then p ∷ path_words ps else path_words ps

unfoldable pub path_allowed : List Text → Text → Bool
unfolding rstrip starts_with
path_allowed allowed p = any (λ a. starts_with (rstrip b'/' (rstrip b'*' a)) p) allowed

unfoldable pub exec_allowed : Text → Text → List Text → Bool
unfolding lower same starts_with
exec_allowed cmd word [] = false
exec_allowed cmd word (a ∷ es) =
    if same word (lower a) || starts_with (lower a) cmd then true else exec_allowed cmd word es

unfoldable pub denied_word : Text → List Text → Bool
unfolding lower same
denied_word word [] = false
denied_word word (d ∷ ds) = if same word (lower d) then true else denied_word word ds

abbrev pub named : Text → Text → Text
named name rest = codes "Agent '" ++ (name ++ rest)

unfoldable pub check_paths : Text → List Text → List Text → Option Text
unfolding path_allowed join_comma
check_paths name allowed [] = none
check_paths name allowed (p ∷ ps) =
    if path_allowed allowed p
    then check_paths name allowed ps
    else some (
        named name (
          codes "' is not allowed to access path '"
          ++ (p ++ (codes "'. Allowed: " ++ join_comma allowed))))

abbrev pub file_word : FileTool → Text
file_word reads = codes "read"
file_word writes = codes "write"

abbrev pub paths_of : FileTool → Permissions → List Text
paths_of reads p = p.read
paths_of writes p = p.write

-- `if paths: …`
unfoldable pub check_words : Text → FileTool → List Text → List Text → Option Text
unfolding check_paths
check_words name t allowed [] = none
check_words name t [] (p ∷ ps) =
    some (named name (codes "' has no " ++ (file_word t ++ codes " path permissions")))
check_words name t (a ∷ es) (p ∷ ps) = check_paths name (a ∷ es) (p ∷ ps)

unfoldable pub check_file : Text → Permissions → List Text → Option FileTool → Option Text
unfolding check_words path_words
check_file name p ws none = none
check_file name p ws (some t) = check_words name t (paths_of t p) (path_words ws)

unfoldable pub whitelisted : Text → Text → List Text → Bool
unfolding exec_allowed
whitelisted cmd word [] = true
whitelisted cmd word (a ∷ es) = exec_allowed cmd word (a ∷ es)

unfoldable pub check_agent_permissions : Text → Option Manifest → Option Text → Option Text
unfolding denied_word whitelisted check_file first_word file_tool join_comma split_from
check_agent_permissions cmd none tool = none
check_agent_permissions cmd (some m) tool =
    let word = first_word cmd in
    if denied_word word m.permissions.deny_exec
    then some (
        named m.name
          (codes "' is not allowed to execute '" ++ (word ++ codes "' (deny_exec rule)")))
    else if whitelisted cmd word m.permissions.exec
    then check_file m.name m.permissions (split_from [] cmd) (file_tool tool)
    else some (
        named m.name (
          codes "' may only execute: "
          ++ (join_comma m.permissions.exec ++ (codes ". Got '" ++ (word ++ codes "'")))))
