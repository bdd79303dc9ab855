-- ===== src/Gateway/Started.antt =====
-- When `ToolGateway.execute` of src/trimum_core/tool_gateway.py (lines 547 to 984) starts a tool.
use trimum.Base.{
  ℕ, ◌+◌, ◌≡◌, refl, ap, ◌⊎◌, inl, inr, Bool, true, false, not, ◌&&◌, Option, none, some, [], ◌∷◌,
  ◌++◌, arith, if◌then◌else◌, Text, codes, Bool-cases,
}
use trimum.Approvals.Request.{Outcome, returns, raises}
use trimum.Approvals.Store.{Store}
use trimum.Policy.{Evaluation}
use trimum.Gateway.{Request, Response, Gateway, Effect, Config, Env, Answers, Manifest}
use trimum.Gateway.Audit.{record_audit}
use trimum.Gateway.Checks.{is_confirm, prompt_confirm, read_confirm}
use trimum.Gateway.Tokens.{Checked, check_jit_auth}
use trimum.Gateway.Flow.{Step, going, Flow, pure}
use trimum.Gateway.Layers
use trimum.Gateway.Layers.{
  by_token, with_manifest, layer3, approval, with_store, filed, file_approval, is_preauthorized,
  checks, allowance, released,
}
use trimum.Gateway.Run.{
  planned, result_of, finish, on_dispatch, run_dispatcher, with_executor, run_tool, run_effect,
}
use trimum.Gateway.Passed.{is_answer, is_start, answers, starts, count, count-snoc}
use trimum.Gateway.Kept.{Keeping}

record_audit-trace :
    (c : Config) (w : Answers) (event : Text) (r : Request) (q : Response) (s : Gateway)
    → (record_audit c w event r q s).trace ≡ s.trace
unfolding record_audit
record_audit-trace c w event r q s = elim (Bool-cases c.enable_audit) [
  | inl i ↦ rw i refl
  | inr i ↦ rw i refl
]

abbrev prompted_effect : Answers → Text → Gateway → Effect
prompted_effect w reason s = Effect.asked reason (read_confirm w.isatty s.inputs).0

if-step :
    (b : Bool) (x y z : Step Evaluation × Gateway)
    → (if b then x else y) ≡ z
    → ((b ≡ true) × (x ≡ z)) ⊎ ((b ≡ false) × (y ≡ z))
if-step true x y z h = inl (refl, h)
if-step false x y z h = inr (refl, h)

if-flow :
    (b : Bool) (m n : Flow Evaluation) (s : Gateway) (z : Step Evaluation × Gateway)
    → (if b then m else n) s ≡ z
    → ((b ≡ true) × (m s ≡ z)) ⊎ ((b ≡ false) × (n s ≡ z))
if-flow true m n s z h = inl (refl, h)
if-flow false m n s z h = inr (refl, h)

-- No part of the checks starts a tool.
pub starts-Keeping :
    (c : Config) (w : Answers) (r : Request) → Keeping c w r (λ s x. starts x.1 ≡ starts s)
unfolding prompt_confirm
starts-Keeping c w r = record {
  goes = λ p s. refl;
  then_state = λ s t p x h g. ground arith;
  stops = λ event q s h. ap (count is_start) (record_audit-trace c w event r q s);
  audited = λ p event q s. ap (count is_start) (record_audit-trace c w event r q s);
  prompted = λ p reason s. ground (arith, count-snoc is_start s.trace (prompted_effect w reason s));
  with_tokens = λ p d s. refl;
  crashes = λ d s. refl;
  with_approvals = λ p a s. refl;
}

-- A run only adds starts to the trace: one, or two when the tool's own program fails.
abbrev pub RunsOn : ℕ → Gateway → Gateway → Type 0
RunsOn n s t = ((b : Bool) → answers b t ≡ answers b s) × (starts t ≡ starts s + n)

one_more :
    (s t : Gateway) (x : Effect) → is_start x ≡ true → t.trace ≡ s.trace ++ x ∷ [] → RunsOn 1 s t
one_more s t (Effect.asked why b) h e = cc
one_more s t Effect.ran_file h e = (
  λ b. ground (arith, e, count-snoc (is_answer b) s.trace Effect.ran_file),
  ground (arith, e, count-snoc is_start s.trace Effect.ran_file),
)
one_more s t Effect.dispatched h e = (
  λ b. ground (arith, e, count-snoc (is_answer b) s.trace Effect.dispatched),
  ground (arith, e, count-snoc is_start s.trace Effect.dispatched),
)

two_more : (s t u : Gateway) → RunsOn 1 s t → RunsOn 1 t u → RunsOn 2 s u
two_more s t u (h, n) (g, m) = (λ b. ground (arith, h b, g b), ground (arith, n, m))

module _ (e : Env) (c : Config) (w : Answers) (r : Request) where
  abbrev pub starts_by : Option Text → Option (Outcome Response) → ℕ
  starts_by (some t) (some raises) = 2
  starts_by _ _ = 1

  finish-trace :
      (p : Evaluation) (q : Response) (s : Gateway) → (finish e c w r p q s).1.trace ≡ s.trace
  unfolding finish
  finish-trace p q s =
      record_audit-trace c w (codes "tool_executed") (planned e c w r) (result_of e c w r p q) s

  dispatch-trace :
      (p : Evaluation) (x : Outcome Response) (s : Gateway)
      → (on_dispatch e c w r p x s).1.trace ≡ s.trace
  dispatch-trace p raises s = refl
  dispatch-trace p (returns q) s = finish-trace p q s

  run_dispatcher-trace :
      (p : Evaluation) (s : Gateway)
      → (run_dispatcher e c w r p s).1.trace ≡ s.trace ++ Effect.dispatched ∷ []
  unfolding run_dispatcher
  run_dispatcher-trace p s = dispatch-trace p w.dispatch (run_effect Effect.dispatched s)

  run-RunsOn :
      (p : Evaluation) (o : Option Text) (x : Option (Outcome Response)) (s : Gateway)
      → RunsOn (starts_by o x) s (with_executor e c w r p o x s).1
  run-RunsOn p none x s =
      one_more s (run_dispatcher e c w r p s).1 Effect.dispatched refl (run_dispatcher-trace p s)
  run-RunsOn p (some t) none s =
      one_more s (run_dispatcher e c w r p s).1 Effect.dispatched refl (run_dispatcher-trace p s)
  run-RunsOn p (some t) (some (returns q)) s =
      one_more s (finish e c w r p q (run_effect Effect.ran_file s)).1 Effect.ran_file refl
        (finish-trace p q (run_effect Effect.ran_file s))
  run-RunsOn p (some t) (some raises) s =
      let s' = run_effect Effect.ran_file s in
      two_more s s' (run_dispatcher e c w r p s').1 (one_more s s' Effect.ran_file refl refl) (
        one_more s' (run_dispatcher e c w r p s').1 Effect.dispatched refl
          (run_dispatcher-trace p s'))

  pub run_tool-RunsOn :
      (p : Evaluation) (s : Gateway)
      → RunsOn (starts_by w.tool_def w.file_run) s (run_tool e c w r p s).1
  unfolding run_tool
  run_tool-RunsOn p s = run-RunsOn p w.tool_def w.file_run s

  -- What layer 3 leaves as it is, and what it does not without tokens.
  abbrev pub Layer3 : Evaluation → Evaluation → Gateway → Gateway → Type 0
  Layer3 p p' s t =
      (t.trace ≡ s.trace)
      × (t.approvals ≡ s.approvals)
      × ((c.enable_jit_auth ≡ false) ⊎ (r.agent_manifest ≡ none) → p' ≡ p)

  token-Layer3 :
      (x : Checked) (p p' : Evaluation) (s t : Gateway)
      → by_token e c w r p s x ≡ (going p', t)
      → (t.trace ≡ s.trace) × (t.approvals ≡ s.approvals)
  unfolding Layers.stop
  token-Layer3 (raises, d) p p' s t h = cc
  token-Layer3 (returns none, d) p p' s t h = ground arith
  token-Layer3 (returns (some why), d) p p' s t h = cc

  manifest-Layer3 :
      (o : Option Manifest) (p p' : Evaluation) (s t : Gateway)
      → with_manifest e c w r o p s ≡ (going p', t)
      → (t.trace ≡ s.trace) × (t.approvals ≡ s.approvals) × (o ≡ none → p' ≡ p)
  manifest-Layer3 none p p' s t h = ground arith
  manifest-Layer3 (some m) p p' s t h =
      let (traced, same_approvals) =
        token-Layer3 (check_jit_auth e.search w.now r p.risk p.action s.tokens) p p' s t h in
      (traced, same_approvals, λ n. cc)

  pub layer3-going :
      (p p' : Evaluation) (s t : Gateway) → layer3 e c w r p s ≡ (going p', t) → Layer3 p p' s t
  unfolding layer3
  layer3-going p p' s t h = by_switch (if-flow c.enable_jit_auth _ _ s _ h)
    where
      by_switch :
          ((c.enable_jit_auth ≡ true)
              × (with_manifest e c w r r.agent_manifest p s ≡ (going p', t)))
            ⊎ ((c.enable_jit_auth ≡ false) × (pure p s ≡ (going p', t)))
          → Layer3 p p' s t
      by_switch (inl (i, h')) =
          let (traced, same_approvals, kept) = manifest-Layer3 r.agent_manifest p p' s t h' in
          (traced, same_approvals, λ x. ground arith)
      by_switch (inr (i, h')) = ground arith

  -- A confirmation is pending, and nobody can be asked.
  abbrev pub is_pending : Evaluation → Bool
  is_pending p = is_confirm p.action && not c.interactive

  abbrev pub Released : Evaluation → Gateway → Type 0
  Released p s = (is_pending p ≡ false) ⊎ (s.approvals ≡ none) ⊎ (is_preauthorized e c w r ≡ true)

  store-going :
      (o : Option Store) (p p' : Evaluation) (s t : Gateway)
      → with_store e c w r o p s ≡ (going p', t)
      → (t.trace ≡ s.trace) × ((o ≡ none) ⊎ (is_preauthorized e c w r ≡ true))
  unfolding file_approval Layers.stop
  store-going none p p' s t h = ground arith
  store-going (some st) p p' s t h = by_rule (if-step (is_preauthorized e c w r) _ _ _ h)
    where
      by_rule :
          ((is_preauthorized e c w r ≡ true) × (released e c w r p s ≡ (going p', t)))
            ⊎ ((is_preauthorized e c w r ≡ false) × (file_approval e c w r p st s ≡ (going p', t)))
          → (t.trace ≡ s.trace) × ((some st ≡ none) ⊎ (is_preauthorized e c w r ≡ true))
      by_rule (inl (i, h')) = (
        ground (
          arith,
          h',
          record_audit-trace c w (codes "approval_preauthorized") r (allowance e c w r p) s,
        ),
        inr i,
      )
      by_rule (inr (i, h')) = cc

  pub approval-going :
      (p p' : Evaluation) (s t : Gateway)
      → approval e c w r p s ≡ (going p', t)
      → (t.trace ≡ s.trace) × Released p s
  unfolding approval
  approval-going p p' s t h = by_action (if-step (is_pending p) _ _ _ h)
    where
      by_action :
          ((is_pending p ≡ true) × (with_store e c w r s.approvals p s ≡ (going p', t)))
            ⊎ ((is_pending p ≡ false) × (pure p s ≡ (going p', t)))
          → (t.trace ≡ s.trace) × Released p s
      by_action (inl (i, h')) =
          let (traced, free) = store-going s.approvals p p' s t h' in (traced, inr free)
      by_action (inr (i, h')) = (ground arith, inl i)
