-- ===== src/Monitor/Commands.antt =====
-- The command table of src/trimum_core/behavior_monitor.py (lines 27 to 49 and 176 to 183).
use trimum.Base.{
  Text, codes, List, [], ◌∷◌, ◌++◌, map, Option, none, some, if◌then◌else◌, nonempty, not,
}
use trimum.Base.Dict.{Dict, lookup}
use trimum.Base.Strings.{lower, strip, word}

abbrev pub action_type_commands : List (Text × List Text)
action_type_commands =
    (codes "file_read", map codes ("cat" ∷ "less" ∷ "more" ∷ "head" ∷ "tail" ∷ "read" ∷ []))
    ∷ (codes "file_write", map codes ("echo" ∷ "tee" ∷ "write" ∷ "touch" ∷ []))
    ∷ (codes "file_delete", map codes ("rm" ∷ "trash" ∷ "unlink" ∷ []))
    ∷ (codes "file_move", map codes ("cp" ∷ "mv" ∷ "rename" ∷ []))
    ∷ (codes "file_permission", map codes ("chmod" ∷ "chown" ∷ []))
    ∷ (codes "disk_write", map codes ("dd" ∷ []))
    ∷ (codes "network_request", map codes ("curl" ∷ "wget" ∷ "fetch" ∷ "http" ∷ []))
    ∷ (codes "network_remote", map codes ("ssh" ∷ "scp" ∷ "rsync" ∷ []))
    ∷ (codes "network_raw", map codes ("nc" ∷ "ncat" ∷ "socat" ∷ []))
    ∷ (codes "process_list", map codes ("ps" ∷ "top" ∷ "htop" ∷ []))
    ∷ (codes "process_kill", map codes ("kill" ∷ "pkill" ∷ []))
    ∷ (codes "system_mount", map codes ("mount" ∷ "unmount" ∷ []))
    ∷ (codes "container", map codes ("docker" ∷ "podman" ∷ "nerdctl" ∷ []))
    ∷ (codes "vcs_operation", map codes ("git" ∷ "svn" ∷ "hg" ∷ []))
    ∷ (codes "build_tool", map codes ("make" ∷ "cmake" ∷ "cargo" ∷ "npm" ∷ "pip" ∷ []))
    ∷ []

-- The dictionary comprehension: no command stands under two types.
unfoldable pub command_to_action_type : List (Text × List Text) → Dict Text
command_to_action_type [] = []
command_to_action_type ((t, commands) ∷ rest) =
    map (λ c. (c, t)) commands ++ command_to_action_type rest

abbrev pub or_other : Option Text → Text
or_other none = codes "other"
or_other (some t) = t

unfoldable pub classify_command : Text → Text
unfolding lower strip word command_to_action_type lookup
classify_command command =
    let cmd_lower = strip (lower command) in
    if not (nonempty cmd_lower)
    then codes "unknown"
    else or_other (lookup (word cmd_lower) (command_to_action_type action_type_commands))
