-- ===== src/Gateway/Tokens.antt =====
-- The tokens of src/trimum_core/tool_gateway.py: `_check_jit_auth`, `_verify_jit_token`,
-- `issue_jit_token` and `revoke_jit_token` (lines 1316 to 1430 and 1524 to 1599). `now` is what
-- `time.time()` answers, and `search` is `re.search`, which raises on a pattern that does not compile.
use trimum.Base.{
  ℕ, ◌+◌, Bool, true, false, not, ◌&&◌, Option, none, some, List, [], ◌∷◌, ◌++◌, if◌then◌else◌, ltb,
  Text, codes, nonempty, same,
}
use trimum.Base.Dict.{Dict, lookup, insert, erase, contains}
use trimum.Approvals.Request.{Outcome, returns, raises}
use trimum.Policy.{RiskLevel, critical, Action}
use trimum.Gateway.{Request, Manifest, JitToken, text_or, has_token, command_of}

-- A refusal with its reason, `none` to go on, or an exception.
abbrev pub Checked : Type 0
Checked = Outcome (Option Text) × Dict JitToken

abbrev pub refuse : Text → Dict JitToken → Checked
refuse reason d = (returns (some reason), d)

abbrev pub is_critical : RiskLevel → Bool
is_critical critical = true
is_critical _ = false

unfoldable pub is_expired : ℕ → JitToken → Bool
is_expired now t = ltb 0 t.expires_at && ltb t.expires_at now

-- `bound and given and bound != given`
unfoldable pub mismatch : Text → Text → Bool
unfolding same
mismatch bound given = nonempty bound && (nonempty given && not (same bound given))

-- `bound and bound != given`
unfoldable pub other_tool : Text → Text → Bool
unfolding same
other_tool bound given = nonempty bound && not (same bound given)

abbrev pub bound_to : Text → Text → Text → Text
bound_to kind bound given =
    codes "JIT token is bound to "
    ++ (kind ++ (codes " '" ++ (bound ++ (codes "', not '" ++ (given ++ codes "'")))))

-- `token.used = True`
abbrev pub consume : Text → JitToken → Dict JitToken → Dict JitToken
consume id t d = insert id (record t { used = true }) d

-- The end of `_verify_jit_token`, on the answer of `re.search`.
abbrev pub on_command : Outcome Bool → Text → JitToken → Dict JitToken → Checked
on_command raises id t d = (raises, d)
on_command (returns false) id t d = refuse (codes "JIT token command pattern mismatch") d
on_command (returns true) id t d = (returns none, consume id t d)

abbrev pub on_hit : Bool → Outcome Bool → Outcome Bool → Outcome Bool
on_hit given raises rest = raises
on_hit given (returns true) rest = returns (not given)
on_hit given (returns false) rest = rest

-- `cmd_str`, if it is bound.
abbrev pub bound_command : Request → Action → Option Manifest → Option Text
bound_command r Action.auto (some m) = some (command_of r.args r.raw_command)
bound_command r _ _ = none

module _ (search : Bool → Text → Text → Outcome Bool) where
  -- `token.command and command`
  unfoldable pub command_matches : Text → Text → Outcome Bool
  command_matches bound given =
      if nonempty bound && nonempty given then search true bound given else returns true

  unfoldable pub verify_found : ℕ → Text → Text → Text → Text → JitToken → Dict JitToken → Checked
  unfolding is_expired mismatch other_tool command_matches insert erase
  verify_found now id agent tool command t d =
      if is_expired now t
      then refuse (codes "JIT token has expired") (erase id d)
      else if t.used
      then refuse (codes "JIT token has already been used") d
      else if mismatch t.agent_id agent
      then refuse (bound_to (codes "agent") t.agent_id agent) d
      else if other_tool t.tool tool
      then refuse (bound_to (codes "tool") t.tool tool) d
      else on_command (command_matches t.command command) id t d

  abbrev pub verify_entry :
      ℕ → Text → Text → Text → Text → Option JitToken → Dict JitToken → Checked
  verify_entry now id agent tool command none d =
      refuse (codes "JIT token not found or already consumed") d
  verify_entry now id agent tool command (some t) d = verify_found now id agent tool command t d

  unfoldable pub verify_jit_token : ℕ → Text → Text → Text → Text → Dict JitToken → Checked
  unfolding lookup verify_found
  verify_jit_token now id agent tool command d =
      verify_entry now id agent tool command (lookup id d) d

  -- The loop over `deny_exec`: whether it returns the refusal.
  unfoldable pub deny_listed : Bool → List Text → Text → Outcome Bool
  deny_listed given [] command = returns false
  deny_listed given (p ∷ ps) command =
      on_hit given (search false p command) (deny_listed given ps command)

  -- The check of `deny_exec`: `some true` when it refuses. The command is bound here only.
  abbrev pub deny_check : Request → Action → Option Manifest → Outcome Bool
  deny_check r Action.auto (some m) =
      deny_listed (has_token r.jit_token) m.permissions.deny_exec (command_of r.args r.raw_command)
  deny_check r _ _ = returns false

  -- An unbound `cmd_str` is an UnboundLocalError.
  abbrev pub verify_given : ℕ → Request → Option Text → Dict JitToken → Checked
  verify_given now r none d = (raises, d)
  verify_given now r (some command) d =
      verify_jit_token now (text_or [] r.jit_token) (text_or [] r.agent_id) r.tool command d

  abbrev pub after_deny : ℕ → Request → Outcome Bool → Option Text → Dict JitToken → Checked
  after_deny now r raises command d = (raises, d)
  after_deny now r (returns true) command d =
      refuse (codes "Command is deny_listed; requires JIT authorization") d
  after_deny now r (returns false) command d =
      if has_token r.jit_token then verify_given now r command d else (returns none, d)

  unfoldable pub check_jit_auth : ℕ → Request → RiskLevel → Action → Dict JitToken → Checked
  unfolding command_of text_or deny_listed verify_jit_token
  check_jit_auth now r risk action d =
      if is_critical risk && not (has_token r.jit_token)
      then refuse (codes "CRITICAL risk operation requires JIT authorization") d
      else after_deny now r (deny_check r action r.agent_manifest)
          (bound_command r action r.agent_manifest) d

-- `issue_jit_token`, with the identifier that `uuid4` gives.
unfoldable pub issue_jit_token :
    ℕ → Text → Text → Text → Text → Text → ℕ → Dict JitToken → JitToken × Dict JitToken
unfolding insert
issue_jit_token now id agent tool command granted_by ttl d =
    let t : JitToken = record {
      token = id;
      agent_id = agent;
      tool = tool;
      command = command;
      expires_at = now + ttl;
      granted_by = granted_by;
      used = false;
    } in
    (t, insert id t d)

-- `revoke_jit_token`
unfoldable pub revoke_jit_token : Text → Dict JitToken → Bool × Dict JitToken
unfolding lookup erase
revoke_jit_token id d = if contains id d then (true, erase id d) else (false, d)
