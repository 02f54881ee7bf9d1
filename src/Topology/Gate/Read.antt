-- ===== src/Topology/Gate/Read.antt =====
-- Where no pod is refused, the placements are those of the entries of "pods", in their order, on the nodes that
-- they name.
use llm_d_sc_benchmark.Prelude.{
  ℕ, ◌≡◌, refl, sym, ap, arith, ◌∙◌, ◌≢◌, String, true, Option, some, List, [], ◌∷◌, Result, ok,
  err, ◌>>=◌, if◌then◌else◌, >>=-eq-ok, ok-injective, require, require_ok, any, Option-cases,
  Bool-cases, inl, inr, ◌⊎◌,
}
use text.Mathlib.Text.{◌==◌ as str_eq}
use text.Mathlib.TextEquality.{eq_iff}
use llm_d_sc_benchmark.Prelude.Json.{Json, str, Fields, end, field}
use llm_d_sc_benchmark.Prelude.Floats.{Floats}
use llm_d_sc_benchmark.Topology.Gate.CpuSets.{minus, is_empty}
use llm_d_sc_benchmark.Topology.Gate.Nodes.{
  Fault, Node, Checked, not_ready, duplicate, without_keys, cpus_of, index, check_node, check_nodes,
  node_states, find_node,
}
use llm_d_sc_benchmark.Topology.Gate.Pods.{
  Placed, groups_of, place_pod, pod_name, is_ready, pod_node, check_pod, check_pods, placed_pods,
}
use llm_d_sc_benchmark.Topology.Gate.Verdict.{pod_reasons}
use llm_d_sc_benchmark.Topology.Gate.Settled.{not-duplicate, pod_node-found}

pub cons-ne-nil : {A : Type 0} {a : A} {as' : List A} → (a ∷ as') ≢ []
cons-ne-nil = λ h. cc

some-injective : {A : Type 0} {a b : A} → ◌≡◌ {A = Option A} (some a) (some b) → a ≡ b
some-injective h = cc

place_pod-placement :
    (pod node_name : String) (state : Node) (cpuset : List ℕ) (p : Placed)
    → place_pod pod node_name state cpuset ≡ ok p
    → (pod ≡ p.placement.name)
      × (node_name ≡ p.placement.node_name)
      × (state ≡ p.placement.state)
      × (cpuset ≡ p.placement.cpuset)
unfolding place_pod
place_pod-placement pod node_name state cpuset p h =
    let (u, h0, h1) = >>=-eq-ok (require (is_empty (minus cpuset state.online)) _) _ h in
    let (v, h2, h3) =
      >>=-eq-ok (require (is_empty (without_keys cpuset state.cpu_to_group)) _) _ h1 in
    let (touched, h4, h5) = >>=-eq-ok (groups_of state.cpu_to_group cpuset) _ h3 in
    let same = ok-injective h5 in
    (
      ap (λ q. q.placement.name) same,
      ap (λ q. q.placement.node_name) same,
      ap (λ q. q.placement.state) same,
      ap (λ q. q.placement.cpuset) same,
    )

pod_node-index :
    {F : Type 0} (states : List (String × Node)) (raw : Json F) (node : String × Node)
    → pod_node states raw ≡ ok node
    → index raw "node" ≡ ok (str node.0)
unfolding pod_node index
pod_node-index states raw node h = ground arith

module _ {F : Type 0} ⦃fl : Floats F⦄ where
  -- An entry of "nodes" with the name passes the tests of a node and has the state.
  abbrev pub HasNode : Fields F → String → Node → Type 0
  HasNode end name state = ⊥
  HasNode (field n raw rest) name state =
      ((c : Checked) × (n ≡ name) × (check_node raw ≡ ok c) × (c.node ≡ state))
      ⊎ HasNode rest name state

  -- The placement is that of the entry of "pods", with its name, its node and its CPUs.
  pub record IsReadFrom (nodes : Fields F) (raw : Json F) (p : Placed) : Type 0 where
    pub name_lem : pod_name raw ≡ some p.placement.name
    pub ready : is_ready raw ≡ true
    pub node_lem : index raw "node" ≡ ok (str p.placement.node_name)
    pub state_lem : HasNode nodes p.placement.node_name p.placement.state
    pub cpuset_lem : (index raw "cpuset" >>= cpus_of) ≡ ok p.placement.cpuset

  -- Every entry has its placement, in the same order.
  abbrev pub AreReadFrom : Fields F → List (Json F) → List Placed → Type 0
  AreReadFrom nodes [] [] = Unit
  AreReadFrom nodes [] (p ∷ ps) = ⊥
  AreReadFrom nodes (raw ∷ raws) [] = ⊥
  AreReadFrom nodes (raw ∷ raws) (p ∷ ps) = IsReadFrom nodes raw p × AreReadFrom nodes raws ps

  find_checked :
      (n : String) (raw : Json F) (outcome : Result Fault Checked)
      (rest : List (String × Result Fault Checked)) (name : String) (state : Node)
      → check_node raw ≡ outcome
      → find_node (node_states ((n, outcome) ∷ rest)) name ≡ some state
      → ((c : Checked) × (n ≡ name) × (check_node raw ≡ ok c) × (c.node ≡ state))
        ⊎ (find_node (node_states rest) name ≡ some state)
  unfolding find_node node_states
  find_checked n raw (err e) rest name state outcome h = inr h
  find_checked n raw (ok c) rest name state outcome h = elim (Bool-cases (str_eq n name)) [
    | inl e ↦ inl (c, (eq_iff n name).0 e, outcome, some-injective (rw (e, find_node) at h))
    | inr e ↦ inr (rw (e, find_node) at h)
  ]

  find_node-HasNode :
      (nodes : Fields F) (name : String) (state : Node)
      → find_node (node_states (check_nodes nodes)) name ≡ some state
      → HasNode nodes name state
  unfolding find_node node_states check_nodes
  find_node-HasNode end name state h = cc
  find_node-HasNode (field n raw rest) name state h =
      elim (find_checked n raw (check_node raw) (check_nodes rest) name state refl h) [
        | inl here ↦ inl here
        | inr later ↦ inr (find_node-HasNode rest name state later)
      ]

  check_pod-IsReadFrom :
      (nodes : Fields F) (pod : String) (raw : Json F) (p : Placed)
      → pod_name raw ≡ some pod
      → check_pod (node_states (check_nodes nodes)) pod raw ≡ ok p
      → IsReadFrom nodes raw p
  unfolding check_pod
  check_pod-IsReadFrom nodes pod raw p named h =
      let states = node_states (check_nodes nodes) in
      let (u, h0, h1) = >>=-eq-ok (require (is_ready raw) not_ready) _ h in
      let (node, h2, h3) = >>=-eq-ok (pod_node states raw) _ h1 in
      let (value, h4, h5) = >>=-eq-ok (index raw "cpuset") _ h3 in
      let (cpuset, h6, h7) = >>=-eq-ok (cpus_of value) _ h5 in
      let (name, node_name, state, cpus) = place_pod-placement pod node.0 node.1 cpuset p h7 in
      let found = pod_node-found states raw node h2 in
      record {
        name_lem = named ∙ ap some name;
        ready = require_ok (is_ready raw) not_ready h0;
        node_lem = pod_node-index states raw node h2 ∙ ap (λ n. ok (str n)) node_name;
        state_lem =
            find_node-HasNode nodes p.placement.node_name p.placement.state
              (ap (find_node states) (sym node_name) ∙ (found ∙ ap some state));
        cpuset_lem = rw (h4, h6) (ap ok cpus);
      }

  placed-AreReadFrom :
      (nodes : Fields F) (raw : Json F) (raws : List (Json F)) (pod : Option String)
      (outcome : Result Fault Placed) (rest : List (Option String × Result Fault Placed))
      → ((p : Placed) → outcome ≡ ok p → IsReadFrom nodes raw p)
      → (pod_reasons rest ≡ [] → AreReadFrom nodes raws (placed_pods rest))
      → pod_reasons ((pod, outcome) ∷ rest) ≡ []
      → AreReadFrom nodes (raw ∷ raws) (placed_pods ((pod, outcome) ∷ rest))
  unfolding placed_pods pod_reasons
  placed-AreReadFrom nodes raw raws pod (ok p) rest here later h = (here p refl, later h)
  placed-AreReadFrom nodes raw raws pod (err e) rest here later h = cc

  pub check_pods-AreReadFrom :
      (nodes : Fields F) (seen : List String) (raws : List (Json F))
      → pod_reasons (check_pods (node_states (check_nodes nodes)) seen raws) ≡ []
      → AreReadFrom nodes raws
          (placed_pods (check_pods (node_states (check_nodes nodes)) seen raws))
  unfolding check_pods placed_pods pod_reasons
  check_pods-AreReadFrom nodes seen [] h = tt
  check_pods-AreReadFrom nodes seen (raw ∷ raws) h =
      let states = node_states (check_nodes nodes) in
      elim (Option-cases (pod_name raw)) [
        | inl e ↦ absurd (cons-ne-nil (rw (e, check_pods) at h))
        | inr (pod, e) ↦
            rw (e, check_pods)
              (placed-AreReadFrom nodes raw raws (some pod)
                (if any (str_eq pod) seen then err duplicate else check_pod states pod raw)
                (check_pods states (pod ∷ seen) raws)
                (λ p here.
                  check_pod-IsReadFrom nodes pod raw p e
                    (not-duplicate (any (str_eq pod) seen) (check_pod states pod raw) p here))
                (check_pods-AreReadFrom nodes (pod ∷ seen) raws) (rw (e, check_pods) at h))
      ]
