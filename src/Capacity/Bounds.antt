-- ===== src/Capacity/Bounds.antt =====
-- hack/arena-sc-horizontal-scale-preflight.py: the request of a pod covers those of its containers.
use llm_d_sc_benchmark.Prelude.{
  ℕ, ◌+◌, ◌≤◌, ◌≡◌, sym, ap, ◌∙◌, arith, Option, List, [], ◌∷◌, map, ok, ◌>>=◌, All, sum, >>=-eq-ok,
  >>=-ok, ok-injective,
}
use llm_d_sc_benchmark.Prelude.Decimal.{Text}
use llm_d_sc_benchmark.Prelude.Json.{Json}
use llm_d_sc_benchmark.Prelude.Floats.{Floats}
use llm_d_sc_benchmark.Capacity.Snapshot.{lookup, child, listing}
use llm_d_sc_benchmark.Capacity.Quantities.{cpu_millicores, memory_bytes}
use llm_d_sc_benchmark.Capacity.Requests.{
  Request, max, container_requests, regular_requests, init_requests, overhead_requests,
  pod_scheduler_requests,
}

max-left : (a b : ℕ) → a ≤ max a b
unfolding max
max-left a b = ground arith

max-right : (a b : ℕ) → b ≤ max a b
unfolding max
max-right a b = ground arith

module _ {F : Type 0} ⦃fl : Floats F⦄ (repr : F → Text) (parse_float : Text → Option F) where
  -- The two amounts of an object with the keys "cpu" and "memory".
  abbrev pub HasAmounts : Json F → ℕ × ℕ → Type 0
  HasAmounts amounts (cpu, memory) =
      ((lookup amounts "cpu" >>= cpu_millicores repr parse_float) ≡ ok cpu)
      × ((lookup amounts "memory" >>= memory_bytes repr parse_float) ≡ ok memory)

  -- What a container requests.
  abbrev pub Requests : Json F → ℕ × ℕ → Type 0
  Requests container part =
      (requests : Json F) × ((child container "resources" >>= λ r. child r "requests")
        ≡ ok requests)
      × HasAmounts requests part

  -- What each of the containers requests, in their order.
  abbrev pub AreRequests : List (Json F) → List (ℕ × ℕ) → Type 0
  AreRequests [] [] = Unit
  AreRequests [] (p ∷ ps) = ⊥
  AreRequests (k ∷ ks) [] = ⊥
  AreRequests (k ∷ ks) (p ∷ ps) = Requests k p × AreRequests ks ps

  -- What a container requests is within the bounds, with the overhead on top.
  abbrev pub IsWithin : ℕ → ℕ → ℕ × ℕ → Json F → Type 0
  IsWithin cpu memory overhead container =
      (r : ℕ × ℕ) × Requests container r × (r.0 + overhead.0 ≤ cpu) × (r.1 + overhead.1 ≤ memory)

  container_requests-Requests :
      (container : Json F) (r : ℕ × ℕ)
      → container_requests repr parse_float container ≡ ok r
      → Requests container r
  unfolding container_requests
  container_requests-Requests container r h =
      let (resources, h0, h1) = >>=-eq-ok (child container "resources") _ h in
      let (requests, h2, h3) = >>=-eq-ok (child resources "requests") _ h1 in
      let (cpu_raw, h4, h5) = >>=-eq-ok (lookup requests "cpu") _ h3 in
      let (cpu, h6, h7) = >>=-eq-ok (cpu_millicores repr parse_float cpu_raw) _ h5 in
      let (memory_raw, h8, h9) = >>=-eq-ok (lookup requests "memory") _ h7 in
      let (memory, h10, h11) = >>=-eq-ok (memory_bytes repr parse_float memory_raw) _ h9 in
      let same = ok-injective h11 in
      (
        requests,
        >>=-ok _ h0 ∙ h2,
        (>>=-ok _ h4 ∙ (h6 ∙ ap (λ p. ok p.0) same), >>=-ok _ h8 ∙ (h10 ∙ ap (λ p. ok p.1) same)),
      )

  regular_requests-AreRequests :
      (containers : List (Json F)) (total : ℕ × ℕ)
      → regular_requests repr parse_float containers ≡ ok total
      → (parts : List (ℕ × ℕ)) × AreRequests containers parts
        × (sum (map (λ p. p.0) parts) ≡ total.0)
        × (sum (map (λ p. p.1) parts) ≡ total.1)
  unfolding regular_requests
  regular_requests-AreRequests [] total h =
      ([], tt, ap (λ p. p.0) (ok-injective h), ap (λ p. p.1) (ok-injective h))
  regular_requests-AreRequests (k ∷ ks) total h =
      let (here, h0, h1) = >>=-eq-ok (container_requests repr parse_float k) _ h in
      let (rest, h2, h3) = >>=-eq-ok (regular_requests repr parse_float ks) _ h1 in
      let (parts, asked, cpu, memory) = regular_requests-AreRequests ks rest h2 in
      (
        here ∷ parts,
        (container_requests-Requests k here h0, asked),
        ap (λ n. here.0 + n) cpu ∙ ap (λ p. p.0) (ok-injective h3),
        ap (λ n. here.1 + n) memory ∙ ap (λ p. p.1) (ok-injective h3),
      )

  init_requests-All :
      (containers : List (Json F)) (r overhead : ℕ × ℕ) (cpu memory : ℕ)
      → init_requests repr parse_float containers ≡ ok r
      → r.0 + overhead.0 ≤ cpu
      → r.1 + overhead.1 ≤ memory
      → All (IsWithin cpu memory overhead) containers
  unfolding init_requests
  init_requests-All [] r overhead cpu memory h le_cpu le_memory = tt
  init_requests-All (k ∷ ks) r overhead cpu memory h le_cpu le_memory =
      let (here, h0, h1) = >>=-eq-ok (container_requests repr parse_float k) _ h in
      let (rest, h2, h3) = >>=-eq-ok (init_requests repr parse_float ks) _ h1 in
      let same_cpu : max here.0 rest.0 ≡ r.0 = ap (λ p. p.0) (ok-injective h3) in
      let same_memory : max here.1 rest.1 ≡ r.1 = ap (λ p. p.1) (ok-injective h3) in
      let c0 = max-left here.0 rest.0 in
      let c1 = max-right here.0 rest.0 in
      let m0 = max-left here.1 rest.1 in
      let m1 = max-right here.1 rest.1 in
      (
        (here, container_requests-Requests k here h0, omega arith, omega arith),
        init_requests-All ks rest overhead cpu memory h2 (omega arith) (omega arith),
      )

  overhead_requests-HasAmounts :
      (spec : Json F) (overhead : ℕ × ℕ)
      → overhead_requests repr parse_float spec ≡ ok overhead
      → (raw : Json F) × (child spec "overhead" ≡ ok raw) × HasAmounts raw overhead
  unfolding overhead_requests
  overhead_requests-HasAmounts spec overhead h =
      let (raw, h0, h1) = >>=-eq-ok (child spec "overhead") _ h in
      let (cpu_raw, h4, h5) = >>=-eq-ok (lookup raw "cpu") _ h1 in
      let (cpu, h6, h7) = >>=-eq-ok (cpu_millicores repr parse_float cpu_raw) _ h5 in
      let (memory_raw, h8, h9) = >>=-eq-ok (lookup raw "memory") _ h7 in
      let (memory, h10, h11) = >>=-eq-ok (memory_bytes repr parse_float memory_raw) _ h9 in
      let same = ok-injective h11 in
      (
        raw,
        h0,
        (>>=-ok _ h4 ∙ (h6 ∙ ap (λ p. ok p.0) same), >>=-ok _ h8 ∙ (h10 ∙ ap (λ p. ok p.1) same)),
      )

  -- The pod requests what its containers request in sum, or more, and what each of its init containers requests,
  -- or more, both with the overhead on top.
  pub record IsCovered (pod : Json F) (request : Request) : Type 0 where
    pub spec : Json F
    pub spec_lem : child pod "spec" ≡ ok spec
    pub containers : List (Json F)
    pub containers_lem : listing spec "containers" ≡ ok containers
    pub inits : List (Json F)
    pub inits_lem : listing spec "initContainers" ≡ ok inits
    pub overhead_raw : Json F
    pub overhead_lem : child spec "overhead" ≡ ok overhead_raw
    pub overhead : ℕ × ℕ
    pub overhead_amounts : HasAmounts overhead_raw overhead
    pub parts : List (ℕ × ℕ)
    pub parts_lem : AreRequests containers parts
    pub cpu : sum (map (λ p. p.0) parts) + overhead.0 ≤ request.cpu
    pub memory : sum (map (λ p. p.1) parts) + overhead.1 ≤ request.memory
    pub init : All (IsWithin request.cpu request.memory overhead) inits
    pub one_pod : request.pods ≡ 1

  -- The request of a pod has room for what all its containers request together, and for what each of its init
  -- containers requests, both on top of its overhead, and counts one pod.
  pub pod_scheduler_requests-covers :
      (pod : Json F) (request : Request)
      → pod_scheduler_requests repr parse_float pod ≡ ok request
      → IsCovered pod request
  unfolding pod_scheduler_requests
  pod_scheduler_requests-covers pod request h =
      let (spec, h0, h1) = >>=-eq-ok (child pod "spec") _ h in
      let (containers, h2, h3) = >>=-eq-ok (listing spec "containers") _ h1 in
      let (regular, h4, h5) = >>=-eq-ok (regular_requests repr parse_float containers) _ h3 in
      let (inits, h6, h7) = >>=-eq-ok (listing spec "initContainers") _ h5 in
      let (init, h8, h9) = >>=-eq-ok (init_requests repr parse_float inits) _ h7 in
      let (overhead, h10, h11) = >>=-eq-ok (overhead_requests repr parse_float spec) _ h9 in
      let (parts, parts_lem, sum_cpu, sum_memory) =
        regular_requests-AreRequests containers regular h4 in
      let (overhead_raw, overhead_lem, amounts) = overhead_requests-HasAmounts spec overhead h10 in
      let same_cpu : max regular.0 init.0 + overhead.0 ≡ request.cpu =
        ap (λ p. p.cpu) (ok-injective h11) in
      let same_memory : max regular.1 init.1 + overhead.1 ≡ request.memory =
        ap (λ p. p.memory) (ok-injective h11) in
      let c0 = max-left regular.0 init.0 in
      let c1 = max-right regular.0 init.0 in
      let m0 = max-left regular.1 init.1 in
      let m1 = max-right regular.1 init.1 in
      record {
        spec = spec;
        spec_lem = h0;
        containers = containers;
        containers_lem = h2;
        inits = inits;
        inits_lem = h6;
        overhead_raw = overhead_raw;
        overhead_lem = overhead_lem;
        overhead = overhead;
        overhead_amounts = amounts;
        parts = parts;
        parts_lem = parts_lem;
        cpu = omega arith;
        memory = omega arith;
        init =
            init_requests-All inits init overhead request.cpu request.memory h8 (omega arith)
              (omega arith);
        one_pod = sym (ap (λ p. p.pods) (ok-injective h11));
      }
