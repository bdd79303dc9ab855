-- ===== src/Gateway/Safety.antt =====
-- A tool that `ToolGateway.execute` of src/trimum_core/tool_gateway.py (lines 547 to 984) starts has
-- passed every layer, and what a layer asked for was confirmed.
use trimum.Base.{
  ◌+◌, ◌≡◌, refl, ◌≢◌, ◌⊎◌, inl, inr, true, false, none, Bool, ◌∙◌, arith, ap, sym, [], ◌∷◌,
}
use trimum.Policy.{Action, Evaluation}
use trimum.Gateway.{Request, Gateway, Config, Env, Answers}
use trimum.Gateway.Flow.{Step, going, refused, crashed, chain, >>=-eq-going}
use trimum.Gateway.Layers.{checks, layer3, approval, is_preauthorized}
use trimum.Gateway.Run.{run_tool, after_checks, with_raw, execute}
use trimum.Gateway.Passed.{answers, starts, count, is_answer}
use trimum.Gateway.Kept.{checks-Keeps}
use trimum.Gateway.Cleared.{Cleared, demands, asked_for, Reached, reach}
use trimum.Gateway.Started.{
  starts-Keeping, run_tool-RunsOn, layer3-going, approval-going, Layer3, Released,
}

-- The checks let the call through, and the tool ran from there.
record Ran (e : Env) (c : Config) (w : Answers) (r : Request) (s : Gateway) : Type 0 where
  value : Evaluation
  state : Gateway
  passed : checks e c w (with_raw r) s ≡ (going value, state)
  result : execute e c w r s ≡ run_tool e c w (with_raw r) value state

after-Ran :
    (e : Env) (c : Config) (w : Answers) (r : Request) (s : Gateway) (x : Step Evaluation × Gateway)
    → checks e c w (with_raw r) s ≡ x
    → starts x.1 ≡ starts s
    → starts (after_checks e c w (with_raw r) x).1 ≢ starts s
    → Ran e c w r s
unfolding execute
after-Ran e c w r s (going p, t) h same_starts ran = record {
  value = p;
  state = t;
  passed = h;
  result = ap (after_checks e c w (with_raw r)) h;
}
after-Ran e c w r s (refused q, t) h same_starts ran = elim (ran same_starts) [ ]
after-Ran e c w r s (crashed, t) h same_starts ran = elim (ran same_starts) [ ]

execute-Ran :
    (e : Env) (c : Config) (w : Answers) (r : Request) (s : Gateway)
    → starts (execute e c w r s).1 ≢ starts s
    → Ran e c w r s
unfolding execute
execute-Ran e c w r s ran =
    after-Ran e c w r s (checks e c w (with_raw r) s) refl
      (checks-Keeps e c w (with_raw r) _ (starts-Keeping c w (with_raw r)) s) ran

-- A tool is started, by its own program or by the dispatcher, only when no layer refuses: the command
-- is there, the directory is inside the jail or not looked at, and neither the policy (with the
-- language model), the permissions of the agent, the security rule, the capabilities nor the first
-- threat denies.
pub execute-Cleared :
    (e : Env) (c : Config) (w : Answers) (r : Request) (s : Gateway)
    → starts (execute e c w r s).1 ≢ starts s
    → Cleared e c w (with_raw r)
execute-Cleared e c w r s ran =
    let h = execute-Ran e c w r s ran in
    (reach e c w (with_raw r) h.value s h.state h.passed).cleared

-- What layer 3 and the approval have established.
record Approved (e : Env) (c : Config) (w : Answers) (r : Request) (s : Gateway) (p : Evaluation)
    (t : Gateway) : Type 0 where
  reached : Reached e c w r s p t
  value : Evaluation
  state : Gateway
  third : Layer3 e c w r reached.value value reached.state state
  free : Released e c w r value state
  traced : t.trace ≡ state.trace

late :
    (e : Env) (c : Config) (w : Answers) (r : Request) (s : Gateway) (p : Evaluation) (t : Gateway)
    → checks e c w r s ≡ (going p, t)
    → Approved e c w r s p t
unfolding chain
late e c w r s p t h =
    let x = reach e c w r p s t h in
    let (p6, s6, e6, h7) =
      >>=-eq-going (layer3 e c w r x.value) (chain (approval e c w r ∷ [])) x.state t x.rest in
    let (p7, s7, e7, h8) = >>=-eq-going (approval e c w r p6) (chain []) s6 t h7 in
    let (traced, free) = approval-going e c w r p6 p7 s6 s7 e7 in
    record {
      reached = x;
      value = p6;
      state = s6;
      third = layer3-going e c w r x.value p6 x.state s6 e6;
      free = free;
      traced = ground arith;
    }

-- With a user to ask: when a tool is started, the user has said yes once for every layer that asked
-- for a confirmation (the policy, the security rule, the capabilities, the first threat), and has
-- never said no.
pub execute_confirmed :
    (e : Env) (c : Config) (w : Answers) (r : Request) (s : Gateway)
    → c.interactive ≡ true
    → starts (execute e c w r s).1 ≢ starts s
    → (answers true (execute e c w r s).1 ≡ answers true s + demands e c w (with_raw r))
      × (answers false (execute e c w r s).1 ≡ answers false s)
execute_confirmed e c w r s i ran =
    let h = execute-Ran e c w r s ran in
    let a = late e c w (with_raw r) s h.value h.state h.passed in
    let (answered, started) = run_tool-RunsOn e c w (with_raw r) h.value h.state in
    let same_answers : (b : Bool) → answers b (execute e c w r s).1 ≡ answers b a.reached.state =
      λ b. rw (h.result) (answered b ∙ ap (count (is_answer b)) (a.traced ∙ a.third.0)) in
    (same_answers true ∙ a.reached.yes i, same_answers false ∙ a.reached.no)

-- Without a user to ask, with a store of approvals, and with tokens switched off or no manifest: when
-- a layer asks for a confirmation, a tool is started only if a declared rule, of the configuration
-- or of the request, allows this tool in this directory.
pub execute_preauthorized :
    (e : Env) (c : Config) (w : Answers) (r : Request) (s : Gateway)
    → c.interactive ≡ false
    → (c.enable_jit_auth ≡ false) ⊎ (r.agent_manifest ≡ none)
    → s.approvals ≢ none
    → asked_for e c w (with_raw r) ≡ true
    → starts (execute e c w r s).1 ≢ starts s
    → is_preauthorized e c w (with_raw r) ≡ true
execute_preauthorized e c w r s i plain stored asked ran =
    let h = execute-Ran e c w r s ran in
    let a = late e c w (with_raw r) s h.value h.state h.passed in
    let action = a.reached.action i in
    let kept = a.third.2 plain in
    let confirms : a.value.action ≡ Action.confirm = ground (arith, action, asked, kept) in
    let kept_store : a.state.approvals ≡ s.approvals = a.third.1 ∙ a.reached.approvals in
    released_by a.value a.state a.free confirms kept_store
  where
    released_by :
        (p : Evaluation) (t : Gateway)
        → Released e c w (with_raw r) p t
        → p.action ≡ Action.confirm
        → t.approvals ≡ s.approvals
        → is_preauthorized e c w (with_raw r) ≡ true
    released_by p t (inl h) f g = ground (arith, h, f, i)
    released_by p t (inr (inl h)) f g = elim (stored (sym g ∙ h)) [ ]
    released_by p t (inr (inr h)) f g = h
