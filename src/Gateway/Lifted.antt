-- ===== src/Gateway/Lifted.antt =====
-- The end of the checks of `ToolGateway.execute` of src/trimum_core/tool_gateway.py (lines 816 to 895)
-- when no user can be asked: tokens and approvals.
use trimum.Base.{
  ℕ, ◌+◌, ◌≡◌, refl, ap, ◌∙◌, ◌⊎◌, inl, inr, Bool, true, false, not, ◌&&◌, Option, none, some, [],
  ◌∷◌, arith, if◌then◌else◌, Text,
}
use trimum.Base.Dict.{Dict}
use trimum.Approvals.Request.{Outcome, returns, raises}
use trimum.Policy.{RiskLevel, Action, Evaluation}
use trimum.Gateway.{
  Request, Gateway, Config, Env, Answers, Manifest, JitToken, has_token, command_of,
}
use trimum.Gateway.Checks.{is_confirm}
use trimum.Gateway.Tokens.{
  is_critical, deny_listed, deny_check, after_deny, bound_command, check_jit_auth,
}
use trimum.Gateway.Flow.{going, Flow, ◌>>=◌, chain, pure, bind_step}
use trimum.Gateway.Layers.{policy_verdict, layer3, approval, by_token, with_manifest, checks}
use trimum.Gateway.Run.{after_checks, with_raw, execute}
use trimum.Gateway.Passed.{starts, count, is_start}
use trimum.Gateway.Cleared.{Cleared, asked_for}
use trimum.Gateway.Forward.{if-false, arrive}
use trimum.Gateway.Started.{starts_by, run_tool-RunsOn}

-- Whatever the action is, the command is not matched by a pattern of `deny_exec`.
unlisted :
    (look : Bool → Text → Text → Outcome Bool) (r : Request) (m : Manifest) (a : Action)
    → deny_listed look
        (has_token r.jit_token)
        m.permissions.deny_exec
        (command_of r.args r.raw_command)
      ≡ returns false
    → deny_check look r a (some m) ≡ returns false
unlisted look r m Action.auto h = h
unlisted look r m Action.confirm h = refl
unlisted look r m Action.deny h = refl

no_token_needed :
    (look : Bool → Text → Text → Outcome Bool) (now : ℕ) (r : Request) (m : Manifest)
    (risk : RiskLevel) (a : Action) (d : Dict JitToken)
    → r.agent_manifest ≡ some m
    → has_token r.jit_token ≡ false
    → is_critical risk ≡ false
    → deny_check look r a (some m) ≡ returns false
    → check_jit_auth look now r risk a d ≡ (returns none, d)
unfolding check_jit_auth
no_token_needed look now r m risk a d named empty mild free =
    if-false (is_critical risk && not (has_token r.jit_token)) _ _ (ground (arith, mild))
    ∙ (ap (λ o. after_deny look now r (deny_check look r a o) (bound_command r a o) d) named
        ∙ settle (deny_check look r a (some m)) free)
  where
    settle :
        (x : Outcome Bool)
        → x ≡ returns false
        → after_deny look now r x (bound_command r a (some m)) d ≡ (returns none, d)
    settle raises h = cc
    settle (returns true) h = cc
    settle (returns false) h = if-false (has_token r.jit_token) _ _ empty

if_true : (b : Bool) (m n : Flow Evaluation) (s : Gateway) → b ≡ true → (if b then m else n) s ≡ m s
if_true true m n s h = refl
if_true false m n s h = cc

module _ (e : Env) (c : Config) (w : Answers) (r : Request) where
  -- The checks end with an automatic action in a state with the same trace.
  ends :
      (p : Evaluation) (s t : Gateway)
      → checks e c w (with_raw r) s ≡ (going p, t)
      → t.trace ≡ s.trace
      → starts (execute e c w r s).1 ≡ starts s + starts_by e c w (with_raw r) w.tool_def w.file_run
  unfolding execute
  ends p s t h g =
      ap (λ x. starts (after_checks e c w (with_raw r) x).1) h
      ∙ ((run_tool-RunsOn e c w (with_raw r) p t).1
          ∙ ap (λ x. count is_start x + starts_by e c w (with_raw r) w.tool_def w.file_run) g)

  approval_passes :
      (p : Evaluation) (s : Gateway)
      → is_confirm p.action ≡ false
      → approval e c w r p s ≡ (going p, s)
  unfolding approval
  approval_passes p s h =
      if-false (is_confirm p.action && not c.interactive) _ _ (ground (arith, h))

  layer3_lifts :
      (p : Evaluation) (s : Gateway) (m : Manifest)
      → c.enable_jit_auth ≡ true
      → r.agent_manifest ≡ some m
      → check_jit_auth e.search w.now r p.risk p.action s.tokens ≡ (returns none, s.tokens)
      → layer3 e c w r p s ≡ (going (record p { action = Action.auto }), s)
  unfolding layer3
  layer3_lifts p s m on named free =
      if_true c.enable_jit_auth _ _ s on
      ∙ (ap (λ o. with_manifest e c w r o p s) named ∙ ap (by_token e c w r p s) free)

  layer3_passes :
      (p : Evaluation) (s : Gateway)
      → (c.enable_jit_auth ≡ false) ⊎ (r.agent_manifest ≡ none)
      → layer3 e c w r p s ≡ (going p, s)
  unfolding layer3
  layer3_passes p s h = off c.enable_jit_auth r.agent_manifest h
    where
      off :
          (b : Bool) (o : Option Manifest)
          → (b ≡ false) ⊎ (o ≡ none)
          → (if b then with_manifest e c w r o p else pure p) s ≡ (going p, s)
      off false o h = refl
      off true none h = refl
      off true (some m) (inl h) = cc
      off true (some m) (inr h) = cc

  -- The end of the checks, from what layer 3 does.
  finishes :
      (p q : Evaluation) (s : Gateway)
      → layer3 e c w r p s ≡ (going q, s)
      → is_confirm q.action ≡ false
      → chain (layer3 e c w r ∷ approval e c w r ∷ []) p s ≡ (going q, s)
  unfolding chain
  finishes p q s h g =
      ap (λ x. bind_step x (λ p'. approval e c w r p' >>= pure)) h
      ∙ ap (λ x. bind_step x pure) (approval_passes q s g)

-- Without a user to ask: when no layer refuses and none asks for a confirmation, and tokens are
-- switched off or the agent has no manifest, the tool is started (twice when its own program fails).
pub execute_runs :
    (e : Env) (c : Config) (w : Answers) (r : Request) (s : Gateway)
    → c.interactive ≡ false
    → Cleared e c w (with_raw r)
    → asked_for e c w (with_raw r) ≡ false
    → (c.enable_jit_auth ≡ false) ⊎ (r.agent_manifest ≡ none)
    → starts (execute e c w r s).1 ≡ starts s + starts_by e c w (with_raw r) w.tool_def w.file_run
execute_runs e c w r s i cleared calm off =
    let a = arrive e c w (with_raw r) i s cleared in
    let automatic : a.value.action ≡ Action.auto = ground (arith, calm, a.action) in
    ends e c w r a.value s s
      (a.arrives
        ∙ finishes e c w (with_raw r) a.value a.value s
            (layer3_passes e c w (with_raw r) a.value s off) (ap is_confirm automatic))
      refl

-- Without a user to ask, with tokens switched on and a manifest: when no layer refuses, the call
-- carries no token, its risk is not critical and no pattern of `deny_exec` matches it, the tool is
-- started, also when layers ask for a confirmation, and whatever the store of approvals says.
pub execute_lifts :
    (e : Env) (c : Config) (w : Answers) (r : Request) (s : Gateway) (m : Manifest)
    → c.interactive ≡ false
    → c.enable_jit_auth ≡ true
    → r.agent_manifest ≡ some m
    → has_token r.jit_token ≡ false
    → is_critical (policy_verdict e c w (with_raw r)).risk ≡ false
    → deny_listed e.search false m.permissions.deny_exec
        (command_of r.args (with_raw r).raw_command)
      ≡ returns false
    → Cleared e c w (with_raw r)
    → starts (execute e c w r s).1 ≡ starts s + starts_by e c w (with_raw r) w.tool_def w.file_run
execute_lifts e c w r s m i on named empty mild free cleared =
    let a = arrive e c w (with_raw r) i s cleared in
    let checked =
      no_token_needed e.search w.now (with_raw r) m a.value.risk a.value.action s.tokens named empty
        (ap is_critical a.risk ∙ mild)
        (unlisted e.search (with_raw r) m a.value.action (
          ap
            (λ b.
              deny_listed e.search b m.permissions.deny_exec
                (command_of r.args (with_raw r).raw_command))
            empty
          ∙ free)) in
    ends e c w r (record (a.value) { action = Action.auto }) s s
      (a.arrives
        ∙ finishes e c w (with_raw r) a.value (record (a.value) { action = Action.auto }) s
            (layer3_lifts e c w (with_raw r) a.value s m on named checked) refl)
      refl
