-- ===== src/Topology/Gate/Total.antt =====
-- What `validate_snapshot` returns or raises: no lookup of a sibling group raises behind the two loops.
use llm_d_sc_benchmark.Prelude.{
  ℕ, ◌≡◌, refl, sym, ap, ◌∙◌, String, Bool, true, false, ◌||◌, Option, some, List, [], ◌∷◌, ◌++◌,
  map, arith, Result, ok, err, require, ◌==◌, any, All, >>=-total, Bool-cases, inl, inr, ◌⊎◌,
  >>=-ok, >>=-err,
}
use mathlib.Core.Path.{subst}
use text.Mathlib.Text.{◌==◌ as str_eq}
use text.Mathlib.TextEquality.{eq_iff}
use llm_d_sc_benchmark.Prelude.Json.{Fields, get}
use llm_d_sc_benchmark.Prelude.Floats.{Floats}
use llm_d_sc_benchmark.Topology.CpuList.{too_many_digits}
use llm_d_sc_benchmark.Topology.Gate.CpuSets.{is_empty}
use llm_d_sc_benchmark.Topology.Gate.Nodes.{
  Node, Fault, evidence, group_of, without_keys, find_node, check_nodes, node_states,
  is_value_error, handled,
}
use llm_d_sc_benchmark.Topology.Gate.Pods.{Placed, Violation, groups_of, check_pods, placed_pods}
use llm_d_sc_benchmark.Topology.Gate.Pairs.{
  overlap_violations, core_violations, against, check_pairs,
}
use llm_d_sc_benchmark.Topology.Gate.Verdict.{Report, raw_nodes, raw_pods, validate_snapshot}
use llm_d_sc_benchmark.Topology.Gate.Settled.{IsSettled, check_pods-IsSettled}

some-injective : {A : Type 0} {a b : A} → ◌≡◌ {A = Option A} (some a) (some b) → a ≡ b
some-injective h = cc

pub group_of-known :
    (known : List (ℕ × List ℕ)) (cpu : ℕ)
    → any (λ e. cpu == e.0) known ≡ true
    → (group : List ℕ) × (group_of known cpu ≡ some group)
unfolding group_of
group_of-known [] cpu h = cc
group_of-known ((c, group) ∷ rest) cpu h = elim (Bool-cases (cpu == c)) [
  | inl e ↦ (group, rw (e, group_of) refl)
  | inr e ↦ let (g, found) = group_of-known rest cpu (ground arith) in (g, rw (e, group_of) found)
]

pub without_keys-cons :
    (cpu : ℕ) (cpus : List ℕ) (known : List (ℕ × List ℕ))
    → is_empty (without_keys (cpu ∷ cpus) known) ≡ true
    → (any (λ e. cpu == e.0) known ≡ true) × (is_empty (without_keys cpus known) ≡ true)
unfolding is_empty without_keys
without_keys-cons cpu cpus known h = elim (Bool-cases (any (λ e. cpu == e.0) known)) [
  | inl e ↦ (e, ground arith)
  | inr e ↦ ground arith
]

groups_of-known :
    (known : List (ℕ × List ℕ)) (cpus : List ℕ)
    → is_empty (without_keys cpus known) ≡ true
    → (touched : List (List ℕ)) × (groups_of known cpus ≡ ok touched)
unfolding groups_of
groups_of-known known [] h = ([], refl)
groups_of-known known (cpu ∷ cpus) h =
    let (here, later) = without_keys-cons cpu cpus known h in
    let (group, found) = group_of-known known cpu here in
    let (rest, touched) = groups_of-known known cpus later in
    (group ∷ rest, rw (found, touched, groups_of) refl)

-- Two settled pods of one node have one state.
pub same_state :
    (states : List (String × Node)) (left right : Placed)
    → IsSettled states left
    → IsSettled states right
    → str_eq left.placement.node_name right.placement.node_name ≡ true
    → left.placement.state ≡ right.placement.state
same_state states left right l r h =
    let name = (eq_iff left.placement.node_name right.placement.node_name).0 h in
    some-injective (sym l.found ∙ (ap (find_node states) name ∙ r.found))

against_total :
    (states : List (String × Node)) (left : Placed) (groups : List (List ℕ)) (rest : List Placed)
    → IsSettled states left
    → All (IsSettled states) rest
    → (violations : List Violation) × (against left.placement groups (map (λ p. p.placement) rest)
        ≡ ok violations)
unfolding against
against_total states left groups [] l rs = ([], refl)
against_total states left groups (right ∷ rest) l (r, rs) =
    let (others, h) = against_total states left groups rest l rs in
    elim (Bool-cases (str_eq left.placement.node_name right.placement.node_name)) [
      | inl e ↦
          let same = ap (λ n. n.cpu_to_group) (same_state states left right l r e) in
          let looked =
            subst (λ known. groups_of known right.placement.cpuset ≡ ok r.touched) (sym same)
              r.touched_lem in
          (
            overlap_violations left.placement right.placement
                ++ (core_violations left.placement right.placement groups r.touched ++ others),
            rw (e, looked, h, against) refl,
          )
      | inr e ↦ (others, rw (e, against) h)
    ]

check_pairs_total :
    (states : List (String × Node)) (placed : List Placed)
    → All (IsSettled states) placed
    → (violations : List Violation) × (check_pairs (map (λ p. p.placement) placed) ≡ ok violations)
unfolding check_pairs
check_pairs_total states [] settled = ([], refl)
check_pairs_total states (left ∷ rest) (l, rs) =
    let (here, h0) = against_total states left l.touched rest l rs in
    let (later, h1) = check_pairs_total states rest rs in
    (here ++ later, rw (l.touched_lem, h0, h1, check_pairs) refl)

handled-none :
    {K A : Type 0} (outcomes : List (K × Result Fault A))
    → any (λ o. is_value_error o.1) outcomes ≡ false
    → handled outcomes ≡ ok tt
unfolding handled
handled-none outcomes h = rw (h, require)

handled-some :
    {K A : Type 0} (outcomes : List (K × Result Fault A))
    → any (λ o. is_value_error o.1) outcomes ≡ true
    → handled outcomes ≡ err (evidence too_many_digits)
unfolding handled
handled-some outcomes h = rw (h, require)

-- A CPU list of a node or of a pod stopped its reading with the `ValueError` of `int`.
abbrev pub has_value_error : {F : Type 0} ⦃fl : Floats F⦄ → Fields F → Bool
has_value_error snapshot =
    let nodes = check_nodes (raw_nodes (get snapshot "nodes")) in
    any (λ o. is_value_error o.1) nodes
    || any (λ o. is_value_error o.1)
        (check_pods (node_states nodes) [] (raw_pods (get snapshot "pods")))

-- Every snapshot, an invalid one too, gets a report, unless a CPU list makes `int` raise a ValueError. Then
-- validate_snapshot raises it, and it raises nothing else: the handlers and the later lookups leave no other
-- exception.
pub validate_snapshot_total :
    {F : Type 0} ⦃fl : Floats F⦄ (snapshot : Fields F)
    → ((has_value_error snapshot ≡ false)
        × (report : Report) × (validate_snapshot snapshot ≡ ok report))
      ⊎ ((has_value_error snapshot ≡ true)
          × (validate_snapshot snapshot ≡ err (evidence too_many_digits)))
unfolding validate_snapshot
validate_snapshot_total snapshot =
    let nodes = check_nodes (raw_nodes (get snapshot "nodes")) in
    let states = node_states nodes in
    let pods = check_pods states [] (raw_pods (get snapshot "pods")) in
    let (violations, h) =
      check_pairs_total states (placed_pods pods)
        (check_pods-IsSettled states [] (raw_pods (get snapshot "pods"))) in
    elim (Bool-cases (any (λ o. is_value_error o.1) nodes)) [
      | inl e ↦ inr (rw e refl, >>=-err _ (handled-some nodes e))
      | inr e ↦ elim (Bool-cases (any (λ o. is_value_error o.1) pods)) [
        | inl e' ↦
            inr
              (rw (e, e') refl, >>=-ok _ (handled-none nodes e) ∙ >>=-err _ (handled-some pods e'))
        | inr e' ↦
            let (report, made) =
              >>=-total (check_pairs (map (λ p. p.placement) (placed_pods pods))) _ h in
            inl (
              rw (e, e') refl,
              report,
              >>=-ok _ (handled-none nodes e) ∙ (>>=-ok _ (handled-none pods e') ∙ made),
            )
      ]
    ]
