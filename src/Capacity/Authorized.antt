-- ===== src/Capacity/Authorized.antt =====
-- What it means that the capacity preflight authorizes the load.
use llm_d_sc_benchmark.Prelude.{
  ℕ, arith, ◌≡◌, ◌≢◌, refl, sym, ap, ◌∙◌, String, Bool, true, false, not, Option, some, List, [],
  ◌∷◌, pos, ◌+ℤ◌, ◌≤ℤ◌, Result, ok, err, ◌>>=◌, any, all, All, Bool-cases, Option-cases, inl, inr,
  ◌==◌, require, >>=-eq-ok, >>=-ok, ok-injective, and-eq-true,
}
use mathlib.Core.Path.{subst}
use text.Mathlib.Text.{◌==◌ as str_eq}
use llm_d_sc_benchmark.Prelude.Decimal.{Text}
use llm_d_sc_benchmark.Prelude.Json.{Json, arr, nil, bool}
use llm_d_sc_benchmark.Prelude.Floats.{Floats}
use llm_d_sc_benchmark.Capacity.Quantities.{
  CapacityError, bad_rung, type_error, attribute_error, overflow_error, unsupported_cpu,
  unsupported_memory, not_integral,
}
use llm_d_sc_benchmark.Capacity.Snapshot.{child, lookup_or, elements, listing}
use llm_d_sc_benchmark.Capacity.Requests.{Request, Usage, requested_by, usage_from}
use llm_d_sc_benchmark.Prelude.Truth.{is_truthy}
use llm_d_sc_benchmark.Capacity.Usage.{AddsUp, usage_from-AddsUp}
use llm_d_sc_benchmark.Capacity.Listed.{IsListed, find_node-IsListed}
use llm_d_sc_benchmark.Capacity.Mounts.{IsBound, MountsHere, volume_gate-passed}
use llm_d_sc_benchmark.Capacity.Conditions.{
  IsReady, IsRelaxed, is_ready-IsReady, has_pressure-IsRelaxed,
}
use llm_d_sc_benchmark.Capacity.Quota.{quotas_of, quota_rows}
use llm_d_sc_benchmark.Capacity.Nodes.{
  target_addition, driver_addition, addition_of, node_additions, node_names, Amounts, remaining,
  is_admitted, NodeRow, node_passed, named_nodes, find_node, is_ready, has_pressure, allocatable_of,
  evaluated_row, node_row, node_rows,
}
use llm_d_sc_benchmark.Capacity.Volume.{volume_gate}
use llm_d_sc_benchmark.Capacity.Evaluate.{Report, gates, evaluate, exit_code}
use llm_d_sc_benchmark.Capacity.Additions.{target-addition, driver-addition, node_names-both}
use llm_d_sc_benchmark.Capacity.Room.{remaining-room}
use llm_d_sc_benchmark.Capacity.Admitted.{Admits, quota_rows-All, quota_rows-ne-nil}

false-ne-true : false ≢ true
false-ne-true = λ h. cc

-- The allocatable amounts of a node leave room for what its pods request and what the rung adds.
pub record HasAmounts (alloc : Amounts) (used addition : Request) : Type 0 where
  pub cpu : (pos used.cpu +ℤ pos addition.cpu) ≤ℤ alloc.cpu
  pub memory : (pos used.memory +ℤ pos addition.memory) ≤ℤ alloc.memory
  pub pods : (pos used.pods +ℤ pos addition.pods) ≤ℤ alloc.pods

is_admitted-HasAmounts :
    (alloc : Amounts) (used addition : Request)
    → is_admitted (remaining alloc used addition) ≡ true
    → HasAmounts alloc used addition
unfolding is_admitted remaining
is_admitted-HasAmounts alloc used addition h =
    let (rest, pods) = (and-eq-true _ _).0 h in
    let (cpu, memory) = (and-eq-true _ _).0 rest in
    record {
      cpu = remaining-room alloc.cpu (pos used.cpu) addition.cpu cpu;
      memory = remaining-room alloc.memory (pos used.memory) addition.memory memory;
      pods = remaining-room alloc.pods (pos used.pods) addition.pods pods;
    }

not-true : (b : Bool) → not b ≡ true → b ≡ false
not-true false h = refl
not-true true h = cc

module _ {F : Type 0} ⦃fl : Floats F⦄ (repr : F → Text) (parse_float : Text → Option F) where
  -- The node is in the snapshot, is ready, without pressure and schedulable, and has room.
  pub record HasRoom (nodes : List (Option (Json F) × Json F)) (requested : List (Json F × Request))
      (name : String) (addition : Request) : Type 0 where
    pub node : Json F
    pub found : find_node nodes name ≡ some node
    pub alloc : Amounts
    pub alloc_lem : allocatable_of repr parse_float node ≡ ok alloc
    pub conditions : List (Json F)
    pub conditions_lem : (child node "status" >>= λ s. listing s "conditions") ≡ ok conditions
    pub ready : IsReady conditions
    pub relaxed : All IsRelaxed conditions
    pub unschedulable : Json F
    pub unschedulable_lem :
        (child node "spec" >>= λ s. lookup_or s "unschedulable" (bool false)) ≡ ok unschedulable
    pub schedulable : is_truthy unschedulable ≡ false
    pub amounts : HasAmounts alloc (requested_by requested name) addition

  evaluated_row-HasRoom :
      (nodes : List (Option (Json F) × Json F)) (requested : List (Json F × Request))
      (name : String) (addition : Request) (node : Json F) (row : NodeRow)
      → find_node nodes name ≡ some node
      → evaluated_row repr parse_float requested name addition node ≡ ok row
      → node_passed row ≡ true
      → HasRoom nodes requested name addition
  unfolding evaluated_row node_passed
  evaluated_row-HasRoom nodes requested name addition node row found h passed =
      let (alloc, h0, h1) = >>=-eq-ok (allocatable_of repr parse_float node) _ h in
      let (status, h2, h3) = >>=-eq-ok (child node "status") _ h1 in
      let (conditions, h4, h5) = >>=-eq-ok (listing status "conditions") _ h3 in
      let (ready, h6, h7) = >>=-eq-ok (is_ready conditions) _ h5 in
      let (status', h8, h9) = >>=-eq-ok (child node "status") _ h7 in
      let (conditions', h10, h11) = >>=-eq-ok (listing status' "conditions") _ h9 in
      let (pressure, h12, h13) = >>=-eq-ok (has_pressure conditions') _ h11 in
      let (spec, h14, h15) = >>=-eq-ok (child node "spec") _ h13 in
      let (flag, h16, h17) = >>=-eq-ok (lookup_or spec "unschedulable" (bool false)) _ h15 in
      let (p1, admitted) = (and-eq-true _ _).0 (ap node_passed (ok-injective h17) ∙ passed) in
      let (p2, schedulable) = (and-eq-true _ _).0 p1 in
      let (is_ready_true, no_pressure) = (and-eq-true _ _).0 p2 in
      let same_status = ok-injective (sym h8 ∙ h2) in
      let same = ok-injective (sym h10 ∙ ap (λ s. listing s "conditions") same_status ∙ h4) in
      record {
        node = node;
        found = found;
        alloc = alloc;
        alloc_lem = h0;
        conditions = conditions;
        conditions_lem = >>=-ok _ h2 ∙ h4;
        ready = is_ready-IsReady conditions (h6 ∙ ap ok is_ready_true);
        relaxed =
            has_pressure-IsRelaxed conditions
              (ap has_pressure (sym same) ∙ h12 ∙ ap ok (not-true pressure no_pressure));
        unschedulable = flag;
        unschedulable_lem = >>=-ok _ h14 ∙ h16;
        schedulable = not-true (is_truthy flag) schedulable;
        amounts = is_admitted-HasAmounts alloc (requested_by requested name) addition admitted;
      }

  node_row-HasRoom :
      (nodes : List (Option (Json F) × Json F)) (requested : List (Json F × Request))
      (additions : List (String × Request)) (name : String) (row : NodeRow)
      → node_row repr parse_float nodes requested additions name ≡ ok row
      → node_passed row ≡ true
      → HasRoom nodes requested name (addition_of additions name)
  unfolding node_row node_passed
  node_row-HasRoom nodes requested additions name row h passed =
      elim (Option-cases (find_node nodes name)) [
        | inl e ↦
            absurd (false-ne-true (ap node_passed (ok-injective (rw (e, node_row) at h)) ∙ passed))
        | inr (node, e) ↦
            evaluated_row-HasRoom nodes requested name (addition_of additions name) node row e
              (rw (e, node_row) at h) passed
      ]

  node_rows-All :
      (nodes : List (Option (Json F) × Json F)) (requested : List (Json F × Request))
      (additions : List (String × Request)) (names : List String) (rows : List NodeRow)
      → node_rows repr parse_float nodes requested additions names ≡ ok rows
      → all node_passed rows ≡ true
      → All (λ name. HasRoom nodes requested name (addition_of additions name)) names
  unfolding node_rows
  node_rows-All nodes requested additions [] rows h passed = tt
  node_rows-All nodes requested additions (name ∷ names) rows h passed =
      let (row, h0, h1) =
        >>=-eq-ok (node_row repr parse_float nodes requested additions name) _ h in
      let (others, h2, h3) =
        >>=-eq-ok (node_rows repr parse_float nodes requested additions names) _ h1 in
      let (here, later) = (and-eq-true _ _).0 (ap (all node_passed) (ok-injective h3) ∙ passed) in
      (
        node_row-HasRoom nodes requested additions name row h0 here,
        node_rows-All nodes requested additions names others h2 later,
      )

  -- The same of the gates, for the parts of the snapshot that they are given.
  pub record HasGates (quotas_value pods_value : Json F) (named : List (Option (Json F) × Json F))
      (pvc : Json F) (replicas : ℕ) (namespace target_node driver_node claim_name : String)
      : Type 0 where
    pub quotas : List (Json F)
    pub quotas_lem : elements quotas_value ≡ ok quotas
    pub filled : quotas ≢ []
    pub admitted : All (Admits repr parse_float replicas) quotas
    pub all_pods : List (Json F)
    pub pods_lem : elements pods_value ≡ ok all_pods
    pub usage : Usage F
    pub target_total :
        AddsUp repr parse_float target_node all_pods (requested_by usage.requested target_node)
    pub driver_total :
        AddsUp repr parse_float driver_node all_pods (requested_by usage.requested driver_node)
    pub target : HasRoom named usage.requested target_node (target_addition replicas)
    pub driver : HasRoom named usage.requested driver_node (driver_addition replicas)
    pub bound : IsBound pvc namespace claim_name
    pub mounts : All (MountsHere claim_name target_node) all_pods

  node_rows-both :
      (named : List (Option (Json F) × Json F)) (requested : List (Json F × Request))
      (target_node driver_node : String) (replicas : ℕ) (rows : List NodeRow)
      → node_rows repr parse_float named requested
          (node_additions target_node driver_node replicas)
          (node_names target_node driver_node)
        ≡ ok rows
      → all node_passed rows ≡ true
      → str_eq target_node driver_node ≡ false
      → HasRoom named requested target_node (target_addition replicas)
        × HasRoom named requested driver_node (driver_addition replicas)
  node_rows-both named requested target_node driver_node replicas rows h passed differ =
      let additions = node_additions target_node driver_node replicas in
      let (target, driver) =
        node_names-both (λ name. HasRoom named requested name (addition_of additions name))
          target_node driver_node differ
          (node_rows-All named requested additions (node_names target_node driver_node) rows h
            passed) in
      (
        subst (HasRoom named requested target_node)
            (target-addition target_node driver_node replicas differ) target,
        subst (HasRoom named requested driver_node)
            (driver-addition target_node driver_node replicas differ) driver,
      )

  gates-HasGates :
      (quotas_value pods_value : Json F) (named : List (Option (Json F) × Json F)) (pvc : Json F)
      (replicas : ℕ) (namespace target_node driver_node claim_name : String) (report : Report F)
      → gates repr parse_float quotas_value pods_value named pvc replicas namespace target_node
          driver_node claim_name
        ≡ ok report
      → report.load_authorized ≡ true
      → str_eq target_node driver_node ≡ false
      → HasGates quotas_value pods_value named pvc replicas namespace target_node driver_node
          claim_name
  unfolding gates
  gates-HasGates quotas_value pods_value named pvc replicas namespace target_node driver_node
        claim_name report h authorized differ =
      let (quotas, h0, h1) = >>=-eq-ok (elements quotas_value) _ h in
      let (quota_list, h2, h3) = >>=-eq-ok (quota_rows repr parse_float replicas quotas) _ h1 in
      let (all_pods, h4, h5) = >>=-eq-ok (elements pods_value) _ h3 in
      let (usage, h6, h7) =
        >>=-eq-ok
          (usage_from repr parse_float namespace (record { active_namespaced = 0; requested = [] })
            all_pods)
          _ h5 in
      let (rows, h8, h9) =
        >>=-eq-ok
          (node_rows repr parse_float named usage.requested
            (node_additions target_node driver_node replicas) (node_names target_node driver_node))
          _ h7 in
      let (pods_again, h10, h11) = >>=-eq-ok (elements pods_value) _ h9 in
      let (volume, h12, h13) =
        >>=-eq-ok (volume_gate pvc pods_again namespace target_node claim_name) _ h11 in
      let (p0, volume_passed) =
        (and-eq-true _ _).0 (ap (λ r. r.load_authorized) (ok-injective h13) ∙ authorized) in
      let (quota_passed, nodes_passed) = (and-eq-true _ _).0 p0 in
      let (some_quota, all_quotas) = (and-eq-true _ _).0 quota_passed in
      let (target, driver) =
        node_rows-both named usage.requested target_node driver_node replicas rows h8 nodes_passed
          differ in
      let (bound, mounts) =
        volume_gate-passed pvc pods_again namespace target_node claim_name volume h12
          volume_passed in
      record {
        quotas = quotas;
        quotas_lem = h0;
        filled = quota_rows-ne-nil repr parse_float replicas quotas quota_list h2 some_quota;
        admitted = quota_rows-All repr parse_float replicas quotas quota_list h2 all_quotas;
        all_pods = all_pods;
        pods_lem = h4;
        usage = usage;
        target_total = usage_from-AddsUp repr parse_float namespace target_node all_pods usage h6;
        driver_total = usage_from-AddsUp repr parse_float namespace driver_node all_pods usage h6;
        target = target;
        driver = driver;
        bound = bound;
        mounts =
            subst (All (MountsHere claim_name target_node)) (ok-injective (sym h10 ∙ h4)) mounts;
      }

  -- What the preflight has established of the snapshot for a rung.
  pub record IsAuthorized (resourcequotas pods nodes pvc : Json F) (replicas : ℕ)
      (namespace target_node driver_node claim_name : String) : Type 0 where
    pub quotas_value : Json F
    pub quotas_lem : quotas_of resourcequotas ≡ ok quotas_value
    pub pods_value : Json F
    pub pods_lem : lookup_or pods "items" (arr nil) ≡ ok pods_value
    pub named : List (Option (Json F) × Json F)
    pub items : List (Json F)
    pub items_lem : listing nodes "items" ≡ ok items
    pub named_lem : named_nodes items ≡ ok named
    pub gates :
        HasGates quotas_value pods_value named pvc replicas namespace target_node driver_node
          claim_name
    pub target_listed : IsListed target_node items gates.target.node
    pub driver_listed : IsListed driver_node items gates.driver.node

  load_authorized-IsAuthorized :
      (resourcequotas pods nodes pvc : Json F) (replicas : ℕ)
      (namespace target_node driver_node claim_name : String) (report : Report F)
      → evaluate repr parse_float resourcequotas pods nodes pvc replicas namespace target_node
          driver_node claim_name
        ≡ ok report
      → report.load_authorized ≡ true
      → str_eq target_node driver_node ≡ false
      → IsAuthorized resourcequotas pods nodes pvc replicas namespace target_node driver_node
          claim_name
  unfolding evaluate
  load_authorized-IsAuthorized resourcequotas pods nodes pvc replicas namespace target_node
        driver_node claim_name report h authorized differ =
      let (rung, h0, h1) =
        >>=-eq-ok (require (any (λ r. replicas == r) (20 ∷ 30 ∷ 40 ∷ 50 ∷ [])) bad_rung) _ h in
      let (quotas_value, h2, h3) = >>=-eq-ok (quotas_of resourcequotas) _ h1 in
      let (pods_value, h4, h5) = >>=-eq-ok (lookup_or pods "items" (arr nil)) _ h3 in
      let (node_list, h6, h7) = >>=-eq-ok (listing nodes "items") _ h5 in
      let (named, h8, h9) = >>=-eq-ok (named_nodes node_list) _ h7 in
      let gates =
        gates-HasGates quotas_value pods_value named pvc replicas namespace target_node driver_node
          claim_name report h9 authorized differ in
      record {
        quotas_value = quotas_value;
        quotas_lem = h2;
        pods_value = pods_value;
        pods_lem = h4;
        named = named;
        items = node_list;
        items_lem = h6;
        named_lem = h8;
        gates = gates;
        target_listed =
            find_node-IsListed node_list named target_node gates.target.node h8 gates.target.found;
        driver_listed =
            find_node-IsListed node_list named driver_node gates.driver.node h8 gates.driver.found;
      }

  exit_code-zero :
      (result : Result CapacityError (Report F))
      → exit_code result ≡ 0
      → (report : Report F) × (result ≡ ok report) × (report.load_authorized ≡ true)
  unfolding exit_code
  exit_code-zero (ok report) h = elim (Bool-cases report.load_authorized) [
    | inl e ↦ (report, refl, e)
    | inr e ↦ absurd (omega (arith, rw (e, exit_code) at h))
  ]
  exit_code-zero (err attribute_error) h = absurd (omega (arith, h))
  exit_code-zero (err overflow_error) h = absurd (omega (arith, h))
  exit_code-zero (err unsupported_cpu) h = absurd (omega (arith, h))
  exit_code-zero (err unsupported_memory) h = absurd (omega (arith, h))
  exit_code-zero (err not_integral) h = absurd (omega (arith, h))
  exit_code-zero (err bad_rung) h = absurd (omega (arith, h))
  exit_code-zero (err type_error) h = absurd (omega (arith, h))

  -- Where the preflight exits with 0 and the two nodes differ, there is a quota, and every quota has room for the
  -- whole rung. Each node is listed, ready, without pressure and schedulable, and has room for its share of the rung
  -- beyond the sum of what the active pods on it request. The claim is bound, and every pod is finished, mounts
  -- no volume of the claim, or is on the target node or on none.
  pub exit_zero-IsAuthorized :
      (resourcequotas pods nodes pvc : Json F) (replicas : ℕ)
      (namespace target_node driver_node claim_name : String)
      → exit_code (
          evaluate repr parse_float resourcequotas pods nodes pvc replicas namespace target_node
            driver_node claim_name)
        ≡ 0
      → str_eq target_node driver_node ≡ false
      → IsAuthorized resourcequotas pods nodes pvc replicas namespace target_node driver_node
          claim_name
  exit_zero-IsAuthorized resourcequotas pods nodes pvc replicas namespace target_node driver_node
        claim_name h differ =
      let (report, returned, authorized) =
        exit_code-zero
          (evaluate repr parse_float resourcequotas pods nodes pvc replicas namespace target_node
            driver_node claim_name)
          h in
      load_authorized-IsAuthorized resourcequotas pods nodes pvc replicas namespace target_node
        driver_node claim_name report returned authorized differ
