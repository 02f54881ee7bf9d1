-- ===== src/Capacity/Quota.antt =====
-- hack/arena-sc-horizontal-scale-preflight.py: `resource_value`, and the gate of `evaluate` on the quotas.
use llm_d_sc_benchmark.Prelude.{
  ℕ, ◌*◌, ◌^◌, String, Bool, true, false, not, ◌&&◌, Option, none, some, List, [], ◌∷◌, ℤ, pos,
  ◌-ℤ◌, leb_ℤ, Result, ok, err, ◌>>=◌, ◌>>◌, require, if◌then◌else◌, keep, any, all,
}
use llm_d_sc_benchmark.Prelude.Decimal.{Text, codes}
use llm_d_sc_benchmark.Prelude.Texts.{ends_with, contains}
use llm_d_sc_benchmark.Prelude.Json.{Json, str, arr, obj, nil, cons, get, items}
use llm_d_sc_benchmark.Prelude.Floats.{Floats}
use llm_d_sc_benchmark.Capacity.Quantities.{
  CapacityError, type_error, cpu_millicores, memory_bytes, scalar,
}
use llm_d_sc_benchmark.Capacity.Snapshot.{lookup, lookup_or, child, is_text, is_hashable}

-- What a rung adds to a quota: the targets and a full cell of drivers.
abbrev pub required_quota_additions : ℕ → List (String × ℕ)
required_quota_additions replicas =
    ("pods", 2 * replicas)
    ∷ ("requests.cpu", 2500 * replicas)
    ∷ ("requests.memory", 4352 * replicas * 2 ^ 20)
    ∷ ("limits.cpu", 6000 * replicas)
    ∷ ("limits.memory", 5120 * replicas * 2 ^ 20)
    ∷ []

-- The names of the additions, sorted.
abbrev pub required_names : List String
required_names = "limits.cpu" ∷ "limits.memory" ∷ "pods" ∷ "requests.cpu" ∷ "requests.memory" ∷ []

-- "hard", "used" and "remaining_after", which stand in a row where the quota has a hard limit.
pub record Limit : Type 0 where
  pub hard : ℤ
  pub used : ℤ
  pub remaining_after : ℤ

pub record ResourceRow : Type 0 where
  pub name : String
  pub addition : ℕ
  pub limit : Option Limit
  pub passed : Bool

pub record QuotaRow (F : Type 0) : Type 0 where
  pub name : Option (Json F)
  pub missing_required_hard_limits : List String
  pub resources : List ResourceRow
  pub passed : Bool

unfoldable pub is_empty : {A : Type 0} → List A → Bool
is_empty [] = true
is_empty (a ∷ rest) = false

abbrev pub missing_row : String → ℕ → ResourceRow
missing_row name addition = record {
  name = name;
  addition = addition;
  limit = none;
  passed = false;
}

unfoldable pub limited_row : String → ℕ → ℤ → ℤ → ResourceRow
limited_row name addition hard used =
    let remaining_after = hard -ℤ used -ℤ pos addition in
    record {
      name = name;
      addition = addition;
      limit = some (record { hard = hard; used = used; remaining_after = remaining_after });
      passed = leb_ℤ (pos 0) remaining_after;
    }

module _ {F : Type 0} where
  -- `set(value)`, where it is one
  unfoldable pub check_set : Json F → Result CapacityError (Unit {0})
  check_set (arr values) = require (all (λ v. is_hashable (some v)) (items values)) type_error
  check_set (obj fields) = ok tt
  check_set (str s) = ok tt
  check_set _ = err type_error

  -- `name in value`, of what is a set
  unfoldable pub has_name : Json F → String → Bool
  has_name (obj fields) name = elim (get fields name) [ none ↦ false | some value ↦ true ]
  has_name (arr values) name = any (λ v. is_text (some v) name) (items values)
  has_name (str s) name = contains (codes s) (codes name)
  has_name _ name = false

  -- `name in set(value)`, where a text has its characters
  unfoldable pub set_has : Json F → String → Bool
  set_has (str s) name = false
  set_has value name = has_name value name

module _ {F : Type 0} ⦃fl : Floats F⦄ (repr : F → Text) (parse_float : Text → Option F) where
  unfoldable pub resource_value : Json F → String → Result CapacityError ℤ
  resource_value resources name = do
    value ← lookup_or resources name (str "0")
    if ends_with (codes name) (codes "cpu")
        then (cpu_millicores repr parse_float (some value) >>= λ n. ok (pos n))
        else if ends_with (codes name) (codes "memory")
        then (memory_bytes repr parse_float (some value) >>= λ n. ok (pos n))
        else scalar repr parse_float (some value)

  unfoldable pub resource_row : Json F → Json F → String → ℕ → Result CapacityError ResourceRow
  resource_row hard used name addition =
      if has_name hard name
      then (do
        hard_value ← resource_value hard name
        used_value ← resource_value used name
        ok (limited_row name addition hard_value used_value))
      else ok (missing_row name addition)

  unfoldable pub resource_rows :
      Json F → Json F → List (String × ℕ) → Result CapacityError (List ResourceRow)
  resource_rows hard used [] = ok []
  resource_rows hard used ((name, addition) ∷ rest) = do
    row ← resource_row hard used name addition
    rows ← resource_rows hard used rest
    ok (row ∷ rows)

  -- A pass through the loop over the quotas.
  unfoldable pub quota_row : ℕ → Json F → Result CapacityError (QuotaRow F)
  quota_row replicas quota = do
    hard ← child (← child quota "status") "hard"
    used ← child (← child quota "status") "used"
    check_set hard
    let missing = keep (λ name. not (set_has hard name)) required_names
    resources ← resource_rows hard used (required_quota_additions replicas)
    name ← lookup (← child quota "metadata") "name"
    ok (record {
      name = name;
      missing_required_hard_limits = missing;
      resources = resources;
      passed = is_empty missing && all (λ r. r.passed) resources;
    })

  unfoldable pub quota_rows : ℕ → List (Json F) → Result CapacityError (List (QuotaRow F))
  quota_rows replicas [] = ok []
  quota_rows replicas (quota ∷ quotas) = do
    row ← quota_row replicas quota
    rows ← quota_rows replicas quotas
    ok (row ∷ rows)

-- The quotas of the snapshot: a single one, or the items of a list.
unfoldable pub quotas_of : {F : Type 0} → Json F → Result CapacityError (Json F)
quotas_of resourcequotas = do
  kind ← lookup resourcequotas "kind"
  if is_text kind "ResourceQuota"
      then ok (arr (cons resourcequotas nil))
      else lookup_or resourcequotas "items" (arr nil)
