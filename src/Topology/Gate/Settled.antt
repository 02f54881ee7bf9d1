-- ===== src/Topology/Gate/Settled.antt =====
-- What the loop over the pods establishes of a pod that it accepts.
use llm_d_sc_benchmark.Prelude.{
  ℕ, ◌≡◌, refl, String, Bool, true, false, Option, some, List, [], ◌∷◌, arith, Result, ok, err,
  require, if◌then◌else◌, any, All, >>=-eq-ok, ok-injective, require_ok, Option-cases, inl, inr,
}
use mathlib.Core.Path.{subst}
use text.Mathlib.Text.{◌==◌ as str_eq}
use llm_d_sc_benchmark.Prelude.Json.{Json}
use llm_d_sc_benchmark.Topology.Gate.CpuSets.{minus, is_empty}
use llm_d_sc_benchmark.Topology.Gate.Nodes.{
  Fault, duplicate, not_ready, Node, without_keys, cpus_of, index, find_node,
}
use llm_d_sc_benchmark.Topology.Gate.Pods.{
  Placed, groups_of, pod_violations, place_pod, pod_name, is_ready, pod_node, check_pod, check_pods,
  placed_pods,
}

-- The node's state is the recorded one and covers the cpuset, and the violations are those of the groups
-- that the cpuset touches.
pub record IsSettled (states : List (String × Node)) (p : Placed) : Type 0 where
  pub found : find_node states p.placement.node_name ≡ some p.placement.state
  pub online : is_empty (minus p.placement.cpuset p.placement.state.online) ≡ true
  pub covered : is_empty (without_keys p.placement.cpuset p.placement.state.cpu_to_group) ≡ true
  pub touched : List (List ℕ)
  pub touched_lem : groups_of p.placement.state.cpu_to_group p.placement.cpuset ≡ ok touched
  pub violations_lem :
      p.violations ≡ pod_violations p.placement.name p.placement.cpuset p.placement.state touched

place_pod-IsSettled :
    (states : List (String × Node)) (pod node_name : String) (state : Node) (cpuset : List ℕ)
    (p : Placed)
    → find_node states node_name ≡ some state
    → place_pod pod node_name state cpuset ≡ ok p
    → IsSettled states p
unfolding place_pod
place_pod-IsSettled states pod node_name state cpuset p found h =
    let (u, h0, h1) = >>=-eq-ok (require (is_empty (minus cpuset state.online)) _) _ h in
    let (v, h2, h3) =
      >>=-eq-ok (require (is_empty (without_keys cpuset state.cpu_to_group)) _) _ h1 in
    let (touched, h4, h5) = >>=-eq-ok (groups_of state.cpu_to_group cpuset) _ h3 in
    subst (IsSettled states) (ok-injective h5) (record {
      found = found;
      online = require_ok _ _ h0;
      covered = require_ok _ _ h2;
      touched = touched;
      touched_lem = h4;
      violations_lem = refl;
    })

module _ {F : Type 0} where
  pub pod_node-found :
      (states : List (String × Node)) (raw : Json F) (node : String × Node)
      → pod_node states raw ≡ ok node
      → find_node states node.0 ≡ some node.1
  unfolding pod_node
  pod_node-found states raw node h = ground arith

  check_pod-IsSettled :
      (states : List (String × Node)) (pod : String) (raw : Json F) (p : Placed)
      → check_pod states pod raw ≡ ok p
      → IsSettled states p
  unfolding check_pod
  check_pod-IsSettled states pod raw p h =
      let (u, h0, h1) = >>=-eq-ok (require (is_ready raw) not_ready) _ h in
      let (node, h2, h3) = >>=-eq-ok (pod_node states raw) _ h1 in
      let (value, h4, h5) = >>=-eq-ok (index raw "cpuset") _ h3 in
      let (cpuset, h6, h7) = >>=-eq-ok (cpus_of value) _ h5 in
      place_pod-IsSettled states pod node.0 node.1 cpuset p (pod_node-found states raw node h2) h7

pub not-duplicate :
    (seen : Bool) (outcome : Result Fault Placed) (p : Placed)
    → (if seen then err duplicate else outcome) ≡ ok p
    → outcome ≡ ok p
not-duplicate true outcome p h = cc
not-duplicate false outcome p h = h

placed_pods-cons :
    (P : Placed → Type 0) (pod : Option String) (outcome : Result Fault Placed)
    (rest : List (Option String × Result Fault Placed))
    → ((p : Placed) → outcome ≡ ok p → P p)
    → All P (placed_pods rest)
    → All P (placed_pods ((pod, outcome) ∷ rest))
unfolding placed_pods
placed_pods-cons P pod (ok p) rest here later = (here p refl, later)
placed_pods-cons P pod (err e) rest here later = later

pub check_pods-IsSettled :
    {F : Type 0} (states : List (String × Node)) (seen : List String) (raws : List (Json F))
    → All (IsSettled states) (placed_pods (check_pods states seen raws))
unfolding check_pods placed_pods
check_pods-IsSettled states seen [] = tt
check_pods-IsSettled states seen (raw ∷ raws) = elim (Option-cases (pod_name raw)) [
  | inl e ↦ rw (e, check_pods) (check_pods-IsSettled states seen raws)
  | inr (pod, e) ↦
      rw (e, check_pods)
        (placed_pods-cons (IsSettled states) (some pod)
          (if any (str_eq pod) seen then err duplicate else check_pod states pod raw)
          (check_pods states (pod ∷ seen) raws)
          (λ p h.
            check_pod-IsSettled states pod raw p
              (not-duplicate (any (str_eq pod) seen) (check_pod states pod raw) p h))
          (check_pods-IsSettled states (pod ∷ seen) raws))
]
