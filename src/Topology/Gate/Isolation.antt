-- ===== src/Topology/Gate/Isolation.antt =====
-- What the absence of violations means for a pod, and for two pods of one node.
use llm_d_sc_benchmark.Prelude.{
  ℕ, ◌≡◌, refl, sym, ap, ◌∙◌, ◌≢◌, String, Bool, true, false, Option, some, List, [], ◌∷◌, arith,
  Result, ok, err, ◌==◌, ==_iff, keep, all, elem, >>=-eq-ok, ok-injective, append-nil-both,
  keep-nil-all, Bool-cases, Option-cases, inl, inr,
}
use mathlib.Core.Path.{subst}
use llm_d_sc_benchmark.Topology.Gate.CpuSets.{
  is_subset, minus, meet, is_empty, has_group, insert_group, group_set,
}
use llm_d_sc_benchmark.Topology.Gate.Nodes.{Node, group_of}
use llm_d_sc_benchmark.Topology.Gate.Pods.{
  Placed, Violation, groups_of, incomplete_groups, shared_groups, violation_if, pod_violations,
}
use llm_d_sc_benchmark.Topology.Gate.Settled.{IsSettled}

-- The pod has whole cores for itself: its CPUs are online, and with each of them it has all the siblings in
-- its group, none of which is a housekeeping CPU.
pub record IsIsolated (p : Placed) : Type 0 where
  pub online :
      (cpu : ℕ) → elem cpu p.placement.cpuset ≡ true → elem cpu p.placement.state.online ≡ true
  pub apart :
      (cpu : ℕ) → elem cpu p.placement.cpuset ≡ true → elem cpu p.placement.state.reserved ≡ false
  pub whole :
      (cpu sibling : ℕ) (group : List ℕ)
      → elem cpu p.placement.cpuset ≡ true
      → group_of p.placement.state.cpu_to_group cpu ≡ some group
      → elem sibling group ≡ true
      → (elem sibling p.placement.cpuset ≡ true) × (elem sibling p.placement.state.reserved ≡ false)

err-ne-ok : {E A : Type 0} {e : E} {a : A} → ◌≢◌ {A = Result E A} (err e) (ok a)
err-ne-ok = λ h. cc

pub some-injective : {A : Type 0} {a b : A} → ◌≡◌ {A = Option A} (some a) (some b) → a ≡ b
some-injective h = cc

pub all-elem :
    (test : ℕ → Bool) (s : List ℕ) (a : ℕ) → all test s ≡ true → elem a s ≡ true → test a ≡ true
all-elem test [] a h e = cc
all-elem test (b ∷ s) a h e = elim (Bool-cases (a == b)) [
  | inl same ↦ let same' = (==_iff a b).0 same in rw same' (ground arith)
  | inr differ ↦ all-elem test s a (ground arith) (ground arith)
]

-- Nothing is kept: no element passes the test.
pub keep-nil-elem :
    (test : ℕ → Bool) (s : List ℕ) (a : ℕ) → keep test s ≡ [] → elem a s ≡ true → test a ≡ false
keep-nil-elem test [] a h e = cc
keep-nil-elem test (b ∷ s) a h e = elim (Bool-cases (test b)) [
  | inl kept ↦ ground arith
  | inr gone ↦ elim (Bool-cases (a == b)) [
    | inl same ↦ let same' = (==_iff a b).0 same in rw same' gone
    | inr differ ↦ keep-nil-elem test s a (ground arith) (ground arith)
  ]
]

pub is_empty-eq-nil : {A : Type 0} (s : List A) → is_empty s ≡ true → s ≡ []
unfolding is_empty
is_empty-eq-nil [] h = refl
is_empty-eq-nil (a ∷ s) h = cc

insert_group-ne-nil : (g : List ℕ) (groups : List (List ℕ)) → insert_group g groups ≢ []
unfolding insert_group
insert_group-ne-nil g [] = λ h. cc
insert_group-ne-nil g (g' ∷ groups) = λ h. ground arith

pub group_set-nil : (groups : List (List ℕ)) → group_set groups ≡ [] → groups ≡ []
unfolding group_set has_group
group_set-nil [] h = refl
group_set-nil (g ∷ groups) h = elim (Bool-cases (has_group g groups)) [
  | inl dup ↦ let rest = group_set-nil groups (ground arith) in ground arith
  | inr new ↦ absurd (insert_group-ne-nil g (group_set groups) (ground arith))
]

pub violation_if-nil :
    {A : Type 0} (found : List A) (violation : Violation)
    → violation_if found violation ≡ []
    → found ≡ []
unfolding violation_if
violation_if-nil [] violation h = refl
violation_if-nil (a ∷ found) violation h = cc

groups_of-cons :
    (known : List (ℕ × List ℕ)) (c : ℕ) (cpus : List ℕ) (touched : List (List ℕ))
    → groups_of known (c ∷ cpus) ≡ ok touched
    → (group : List ℕ) × (rest : List (List ℕ)) × (group_of known c ≡ some group)
      × (groups_of known cpus ≡ ok rest)
      × (touched ≡ group ∷ rest)
unfolding groups_of
groups_of-cons known c cpus touched h = elim (Option-cases (group_of known c)) [
  | inl e ↦ absurd (err-ne-ok (rw (e, groups_of) at h))
  | inr (group, e) ↦
      let (rest, h0, h1) = >>=-eq-ok (groups_of known cpus) _ (rw (e, groups_of) at h) in
      (group, rest, e, h0, sym (ok-injective h1))
]

-- A test of all touched groups holds of the group of each CPU.
pub groups_of-all :
    (test : List ℕ → Bool) (known : List (ℕ × List ℕ)) (cpus : List ℕ) (touched : List (List ℕ))
    (cpu : ℕ) (group : List ℕ)
    → groups_of known cpus ≡ ok touched
    → all test touched ≡ true
    → elem cpu cpus ≡ true
    → group_of known cpu ≡ some group
    → test group ≡ true
unfolding groups_of
groups_of-all test known [] touched cpu group h passed e found = cc
groups_of-all test known (c ∷ cpus) touched cpu group h passed e found =
    let (g, rest, looked, later, same) = groups_of-cons known c cpus touched h in
    let passed' = subst (λ t. all test t ≡ true) same passed in
    elim (Bool-cases (cpu == c)) [
      | inl here ↦
          let here' = (==_iff cpu c).0 here in
          let same_group : g ≡ group =
            some-injective (sym looked ∙ (ap (group_of known) (sym here') ∙ found)) in
          subst (λ x. test x ≡ true) same_group (ground arith)
      | inr there ↦
          groups_of-all test known cpus rest cpu group later (ground arith) (ground arith) found
    ]

pub IsIsolated-violations :
    (states : List (String × Node)) (p : Placed)
    → IsSettled states p
    → p.violations ≡ []
    → IsIsolated p
unfolding pod_violations incomplete_groups shared_groups meet is_subset minus
IsIsolated-violations states p settled h =
    let cpuset = p.placement.cpuset in
    let reserved = p.placement.state.reserved in
    let (h0, h1) = append-nil-both _ _ (sym settled.violations_lem ∙ h) in
    let (h2, h3) = append-nil-both _ _ h1 in
    let whole =
      keep-nil-all (λ (g : List ℕ). is_subset g cpuset) settled.touched
        (group_set-nil _ (violation_if-nil _ _ h0)) in
    let direct = violation_if-nil (meet cpuset reserved) _ h2 in
    let alone =
      keep-nil-all (λ (g : List ℕ). is_empty (meet g reserved)) settled.touched
        (group_set-nil _ (violation_if-nil _ _ h3)) in
    record {
      online = λ cpu e.
          all-elem (λ a. elem a p.placement.state.online) cpuset cpu
            (keep-nil-all (λ a. elem a p.placement.state.online) cpuset
              (is_empty-eq-nil _ settled.online))
            e;
      apart = λ cpu e. keep-nil-elem (λ a. elem a reserved) cpuset cpu direct e;
      whole = λ cpu sibling group e found member. (
        all-elem (λ a. elem a cpuset) group sibling
            (groups_of-all (λ g. is_subset g cpuset) p.placement.state.cpu_to_group cpuset
              settled.touched cpu group settled.touched_lem whole e found)
            member,
        keep-nil-elem (λ a. elem a reserved) group sibling
            (is_empty-eq-nil (meet group reserved) (
              groups_of-all (λ g. is_empty (meet g reserved)) p.placement.state.cpu_to_group cpuset
                settled.touched cpu group settled.touched_lem alone e found))
            member,
      );
    }
