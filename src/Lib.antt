-- ===== src/Lib.antt =====
-- Trimum: the security core of an agent runtime (src/trimum_core).
--
-- Agents ask to run commands. src/trimum_core/policy_engine.py finds the first rule for a command,
-- src/trimum_core/behavior_monitor.py watches what each agent has done lately,
-- src/trimum_core/resource_controller.py compares its usage with its limits, and
-- src/trimum_core/security_rule.py merges the three into allow, confirm or deny. A decision to
-- confirm files a one-shot request with src/trimum_core/approvals.py, which a user approves and the
-- runtime uses up. src/trimum_core/patch_ops.py applies the edits of an agent and undoes them.
-- src/trimum_core/tool_gateway.py puts every call of a tool through these layers before it starts.
-- src/trimum_core/event_bus.py hands events to their listeners.
-- src/trimum_core/workflow_engine.py runs the steps of a workflow in the order of its graph,
-- and src/trimum_core/delegation.py hands a task to a child agent with a part of the parent's rights.
-- src/trimum_core/tarl_parser.py reads and writes the lines in which agents speak.
-- src/trimum_core/audit_store.py keeps the log of what was done as a chain of signed records.
--
-- The files:
--   Base       shared names, Boolean tests on numbers, texts as lists of code points, dictionaries.
--   Approvals  approvals.py: Request (`ApprovalRequest`), Store (`ApprovalStore`: request, get,
--              decide, consume, list_pending, claim_once), Ttl (`_parse_ttl`), Rules
--              (`match_allow_rules`, `load_allow_rules`, `preauthorized`). The proofs: Lifecycle,
--              Runs, Safety, Uses, Listing (with Listing/Order and
--              Listing/Loop), Claims, Faults, Rules/Matching.
--   Monitor    behavior_monitor.py: Commands (the table), History (`record`, `_prune`,
--              `check_command`); the proofs: Counts, Window.
--   Resources  resource_controller.py: `_build_check_result`, `check_limits`, `set_limits`; Tokens
--              (`TokenUsageTracker`), Rates (`_SlidingWindowCounter`); the proofs: TokenSums.
--   Policy     policy_engine.py: `evaluate`.
--   Security   security_rule.py: Rule (`can_execute`, `confirm`), Access (`can_access`,
--              `register_workflow_peers`); the proofs: Decisions, Access.
--   Capability capability.py: Block (`normalise`, `evaluate`), Sources (`tighten`); the proofs:
--              Levels, Verdicts.
--   Gateway    tool_gateway.py: Agent (`_check_agent_permissions`), Tokens (`_check_jit_auth`,
--              `_verify_jit_token`, `issue_jit_token`, `revoke_jit_token`), Audit (`_record_audit`,
--              `_observe_behavior`, `_publish_audit`), Checks (`_check_cwd_jail`, `_prompt_confirm`,
--              `_check_security_rule`, `_check_capabilities`), Flow and Layers (the early returns and
--              the layers of `execute`), Run (`execute`, `_merge_decision`, `_redact_credentials`);
--              the proofs: Permitted, Once, Passed, Kept, Cleared, Started, Safety, Forward, Lifted,
--              Recorded, Merge. Samples holds the sample calls.
--   Events     event_index.py and event_bus.py: `matches`, `EventIndex`, `subscribe` and `unsubscribe`
--              of `EventBus`; the proofs: Ranks, Buckets, Scan, Agreement, Runs.
--   Patch      patch_ops.py: Lines (`splitlines`), Hunks (`_apply_hunks`), Session (`snapshot`,
--              `rollback`), Anchor (`replace_anchor`); the proofs: Splice, Apply, Rollback.
--   Workflow   workflow_engine.py: Graph (the data, `_is_node_ready`, `_evaluate_condition`), Dag
--              (`validate_dag`, `topological_sort`), Engine (`run`, `_execute_dag`,
--              `_execute_single_node`, `_add_ready_successors`); the proofs: Counts, Kahn, Visits,
--              Measure, Texts, Toposort, Accepts (the graph) and Invariant, Steps, Queue, Turns,
--              Roots, Run, Final (the execution).
--   Delegation delegation.py: Plan (`plan_delegation`), Child (`delegate`); the proofs: Tools,
--              Bounds, Outcomes.
--   Tarl       tarl_parser.py: Lines (`_split_kv`, `parse_line`, `serialize`, `merge_snapshot`),
--              Messages (several lines, `build_snapshot`), and workflow_engine.py: Match
--              (`register_tarl_workflow`, `match_workflow_by_tarl`); the proofs: Strips, Fields,
--              Sorted, Merge, Best.
--   Audit      sec_monitor.py: Chain (`verify_chain_files`), and audit_store.py: Store (`append`,
--              `verify_chain`); the proofs: Accepted, Growth.
-- The modules named Examples hold concrete calls.
--
-- State is passed explicitly: an operation takes the store, the monitor or the disk and returns the
-- new one. Exceptions are constructors of a result type. Times and amounts are natural numbers,
-- since the code only compares, adds and copies them; a time to live is a whole number of seconds, and
-- fractions of a second are left out, but for those that are lost when they are added to the clock.
-- The loops are structural recursions over lists, but for the two `while` loops of
-- workflow_engine.py, which have a unit of fuel for each node.
-- It is enough for the order of the graph, and for a run without parallel nodes, since each turn takes
-- a node that was not taken before; with parallel nodes a run may go out of fuel, and the results on
-- runs leave such workflows out. A call of the approval store is one step: the code takes no lock, and
-- calls that interleave inside one another, and crashes in the middle of a write, are not modelled,
-- but for `claim_once`, whose exclusive creation of a file is atomic.
--
-- Parameters, for code that is not of the repository: the regular expression search of a policy
-- pattern (patterns that do not compile, with which it raises, are left out), the wild cards of a
-- whitelist (`fnmatch`), SHA-256 and HMAC, the base name of a path, and the answers of the file
-- system, the terminal, the language model, the tools, the clocks, the event
-- bus, the handlers and the child processes. The gateway takes the decision of the security rule, the
-- threats that the monitor found and the sandbox plan as arguments of a call, and the text of a
-- capability's reason as a function of its data.
-- Logging, statistics, YAML and JSON parsing, and the sandbox and network parts
-- of the program are not modelled.
pub mod Base
pub mod Approvals
pub mod Events
pub mod Gateway
pub mod Monitor
pub mod Resources
pub mod Policy
pub mod Security
pub mod Capability
pub mod Patch
pub mod Workflow
pub mod Delegation
pub mod Tarl
pub mod Audit
