-- ===== src/Lib.antt =====
-- The decision logic of the llm-d-sc benchmark: the planner of a horizontal scale campaign, the validator
-- of its plans, the capacity and the topology preflight that authorize a load, and the decisions on the knee.
--
-- The parts and their files:
-- - hack/arena-sc-horizontal-scale-plan.py is modelled under Plan. Plan/Types has the records of a plan,
--   with the constants, and Plan/Gates its gates and analysis rule. Plan/Cells is `_cell` and
--   `build_cells`, Plan/Build the loop of `build_plan` over cells, endpoints and rates (`place`,
--   `place_endpoints`, `place_cells`), Plan/Document the plan and the ledger that `build_plan` returns, and
--   Plan/Ledgers `assert_no_overlap`. The other files of Plan are proofs: Slots and Order about the
--   positions of jobs, Runnable and Success about the requests that are served, Totals and Intervals about
--   the plan, Overlap about several campaigns.
-- - hack/arena-sc-horizontal-scale-summarize.py: `validate_plan`, `percentile`, `sample_cv`, `bootstrap_ci`
--   and `decision`, under Scale. Scale/Validate has the header and the blocks, Scale/Intervals the jobs;
--   Blocks, Reconcile and Accepts are proofs. The planner writes what the validator reads, and Scale/Accepts
--   relates the two. Cells has the operations of `decision`, Decision its gates; Evidence, Sentinels and Confirmed
--   are its proofs.
-- - hack/arena-sc-horizontal-scale-preflight.py, under Capacity. Quantities has `cpu_millicores`, `memory_bytes`
--   and `scalar`, Snapshot the `.get` calls and `is_active`, Requests `pod_scheduler_requests` and the loop over
--   the pods, Quota, Nodes and Volume the three gates, Evaluate `evaluate` and the exit code of `main`. Additions
--   relates its amounts to the planner's envelope. Active, Conditions, Listed, Mounts and Usage say what the tests of pods,
--   nodes and volumes mean; Room, Admitted, Authorized and Bounds are proofs.
-- - hack/arena-sc-topology-preflight.py: `parse_cpu_list` and `format_cpu_list`, under Topology/CpuList, and
--   `validate_snapshot`, under Topology/Gate. CpuSets has the sets of CPUs and of groups, Nodes, Pods and Pairs
--   the three loops, Verdict the report with its exit code. Settled, Total, Isolation, Read, Passed and
--   Partition are proofs.
-- - hack/arena-sc-knee-confirm-analyze.py, under Confirm. Fields has the readers of the JSON fields, Cells
--   is `_parse_cell`, Runtime `_runtime_checks`, Orders the tests of `by_rate`, Extract `_extract`,
--   Statistics the coefficient of variation, the percentile and the bootstrap, Blocks a pass of the loop
--   over the blocks, Analyze the decision. Found, Decision and Confirmed are proofs.
-- - hack/arena-sc-knee-confirm-extension-analyze.py, under Extension, on top of Confirm. StageB reads the second
--   summary and adapts its copy for the first analyzer, Pool is `_evaluate` with its bootstrap, Analyze the
--   cross-stage checks and `analyze`. Pooled and Confirmed are proofs.
-- - hack/arena-sc-open-loop-summarize.py: `infer_knee`, under Knee. Infer has the triggers, a pass of the
--   loop and the loop, Bracket the proof. `statistics.median` is an argument, as it
--   is of `decision`.
-- - hack/arena-sc-transport-health-summarize.py, under Health. State is `pod_state`, Events `warning_counts`,
--   Summary `summarize`; Healthy and Counters are proofs. The fields are those of the Kubernetes API.
-- - Prelude has what they share: tests on numbers, lists, exceptions as values (`Result`), integers,
--   decimal text, JSON values and the interface of floats. Tests has the witnesses.
--
-- How the code is modelled:
-- - An exception is a value of `Result`, and a `do` block stops at the first one. A handler is a function on
--   the result. Messages are constructors with the data that the text shows, less the path of the field.
-- - Python's integers are natural numbers where the code has checked that they are not negative, and ℤ
--   elsewhere. A set of numbers is an ascending list, a dictionary with known keys is a record, and
--   `by_rate` is a list of rates with their cells.
-- - Text that is computed with is the list of its code points; a string that is only compared is a native
--   string.
-- - Floats are an interface (Prelude/Floats), an argument of every definition that computes with them; no
--   theorem assumes a law of it. The SHA-256 digest of the arming nonce, the random draws of the bootstrap
--   and `float` of a string and `str` of a float are arguments too. The ledgers in a directory are a list of what was read.
-- - Every loop is structural recursion on a list, so no fuel is needed. Python converts at most 4300 digits
--   between text and integer; Topology/CpuList has this bound, where `int` meets a text from outside.
-- - `validate_plan` is modelled at the schema that the planner writes, where each `.get` finds its key.
--
-- Not modelled: command lines, files and the cluster; the shell scripts, which are input and output; the
-- Rust driver; the constant texts of the reports; the other summarizers under hack.
pub mod Prelude
pub mod Plan
pub mod Scale
pub mod Topology
pub mod Confirm
pub mod Knee
pub mod Extension
pub mod Capacity
pub mod Health
pub mod Tests
