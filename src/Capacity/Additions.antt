-- ===== src/Capacity/Additions.antt =====
-- hack/arena-sc-horizontal-scale-preflight.py: what `node_additions` holds for each of the two nodes.
use llm_d_sc_benchmark.Prelude.{
  ℕ, ◌*◌, ◌^◌, ◌<◌, ◌≡◌, refl, String, false, [], ◌∷◌, arith, All, Bool-cases, inl, inr,
}
use text.Mathlib.Text.{◌==◌ as str_eq}
use text.Mathlib.TextPositions.{eq_refl}
use llm_d_sc_benchmark.Prelude.Decimal.{codes, text_le}
use llm_d_sc_benchmark.Plan.Document.{envelope}
use llm_d_sc_benchmark.Capacity.Requests.{Request, plus}
use llm_d_sc_benchmark.Capacity.Quota.{required_quota_additions}
use llm_d_sc_benchmark.Prelude.Dict.{put}
use llm_d_sc_benchmark.Capacity.Nodes.{
  target_addition, driver_addition, addition_of, node_additions, node_names,
}

request_eq :
    {a b c d e f : ℕ}
    → a ≡ d
    → b ≡ e
    → c ≡ f
    → ◌≡◌ {A = Request}
        (record { cpu = a; memory = b; pods = c })
        (record { cpu = d; memory = e; pods = f })
request_eq h0 h1 h2 = rw (h0, h1, h2) refl

pub target-addition :
    (target driver : String) (replicas : ℕ)
    → str_eq target driver ≡ false
    → addition_of (node_additions target driver replicas) target ≡ target_addition replicas
unfolding node_additions put addition_of
target-addition target driver replicas differ = rw (differ, eq_refl target) refl

pub driver-addition :
    (target driver : String) (replicas : ℕ)
    → str_eq target driver ≡ false
    → addition_of (node_additions target driver replicas) driver ≡ driver_addition replicas
unfolding node_additions put addition_of
driver-addition target driver replicas differ = rw (differ, differ, eq_refl driver) refl

pub single-addition :
    (node : String) (replicas : ℕ)
    → addition_of (node_additions node node replicas) node
      ≡ plus (driver_addition replicas) (driver_addition replicas)
unfolding node_additions put addition_of
single-addition node replicas = simp (eq_refl node)

pub node_names-both {ℓ} :
    (P : String → Type ℓ) (target driver : String)
    → str_eq target driver ≡ false
    → All P (node_names target driver)
    → P target × P driver
unfolding node_names
node_names-both P target driver differ all_hold =
    elim (Bool-cases (text_le (codes target) (codes driver))) [
      | inl e ↦ let held = rw (differ, e, node_names) at all_hold in (held.0, held.1.0)
      | inr e ↦ let held = rw (differ, e, node_names) at all_hold in (held.1.0, held.0)
    ]

-- The amounts in MiB of the planner's envelope are bytes here.
abbrev pub mebibytes : ℕ → ℕ
mebibytes n = n * 2 ^ 20

-- The additions to the quotas, and those to the two nodes, are the planner's envelope of the rung.
pub additions-envelope :
    (target driver : String) (replicas : ℕ)
    → str_eq target driver ≡ false
    → (required_quota_additions replicas ≡ (
        ("pods", (envelope replicas).peak_pods)
        ∷ ("requests.cpu", (envelope replicas).requests.cpu_millicores)
        ∷ ("requests.memory", mebibytes (envelope replicas).requests.memory_mib)
        ∷ ("limits.cpu", (envelope replicas).limits.cpu_millicores)
        ∷ ("limits.memory", mebibytes (envelope replicas).limits.memory_mib)
        ∷ []))
      × (plus
            (addition_of (node_additions target driver replicas) target)
            (addition_of (node_additions target driver replicas) driver)
          ≡ record {
            cpu = (envelope replicas).requests.cpu_millicores;
            memory = mebibytes (envelope replicas).requests.memory_mib;
            pods = (envelope replicas).peak_pods;
          })
unfolding envelope plus target_addition driver_addition
additions-envelope target driver replicas differ = (
  refl,
  rw (target-addition target driver replicas differ, driver-addition target driver replicas differ)
      (request_eq (omega arith) (omega arith) (omega arith)),
)

-- On a single node for both, the preflight adds less than the planner's envelope asks of it.
pub single-addition-lt-envelope :
    (node : String) (replicas : ℕ)
    → 0 < replicas
    → ((addition_of (node_additions node node replicas) node).cpu
        < (envelope replicas).requests.cpu_millicores)
      × ((addition_of (node_additions node node replicas) node).memory
          < mebibytes (envelope replicas).requests.memory_mib)
unfolding envelope plus driver_addition
single-addition-lt-envelope node replicas positive =
    rw (single-addition node replicas) (omega (arith, positive), omega (arith, positive))
