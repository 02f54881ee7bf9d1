-- ===== src/Scale/Validate.antt =====
-- hack/arena-sc-horizontal-scale-summarize.py: `validate_plan`, what the summarizer demands of a plan
-- and its ledger before it reads any result. The documents are at the planner's schema, so `.get`
-- finds every key.
use text.Mathlib.Text.{◌==◌ as str_eq}
use llm_d_sc_benchmark.Prelude.{
  ℕ, ◌==◌, String, Bool, true, false, ◌&&◌, ◌||◌, Option, none, some, List, [], ◌∷◌, Result, ok,
  ◌>>=◌, ◌>>◌, require, leb, length, keep, all, any, elem,
}
use llm_d_sc_benchmark.Prelude.Decimal.{Text}
use llm_d_sc_benchmark.Plan.Types.{
  knee, period_a, period_b, Cell, Reservation, Identity, Plan, Ledger,
}
use llm_d_sc_benchmark.Plan.Cells.{active_rates}

pub data Fault : Type 0 where
  schema protocol rung cell_count batch_increment stability serial exec : Fault
  token_count corpus_mode generator warmup connections workers rayon candle qos resources : Fault
  knee_count : Fault
  periods impure_pair : ℕ → Fault
  coverage impure_rate : Text → Fault
  namespace_start namespace_end unclaimed reservation_mismatch identity_mismatch : Fault
  job_count duplicate_job : Fault
  entry_missing interval_mismatch wrong_span out_of_reservation : Text → Fault
  overlapping : Text → Text → Fault

unfoldable pub validate_header : Plan → Result Fault (Unit {0})
validate_header plan = do
  require (plan.schema_version == 1) schema
  require (str_eq plan.protocol "unchanged_sc_horizontal_scale_knee_v1") protocol
  require (elem plan.rung_replicas (20 ∷ 30 ∷ 40 ∷ 50 ∷ [])) rung
  require (length plan.cells == 16) cell_count
  require (plan.scale_protocol.batch_increment == 2) batch_increment
  require (plan.scale_protocol.stability_seconds_per_batch == 120) stability
  require plan.scale_protocol.cells_serial serial
  require plan.scale_protocol.no_oc_exec_during_plateau exec
  require (plan.identity.token_count_including_specials == 64) token_count
  require (str_eq plan.identity.corpus_mode "generated") corpus_mode
  require (str_eq plan.identity.generator_scheme "alpha_bravo_lsb_identity_service_fill_v1")
      generator
  require (plan.driver_shape.warmup_requests == 0) warmup
  require (plan.driver_shape.connections_per_job == 1) connections
  require (str_eq plan.target_shape.inference_workers "1") workers
  require (str_eq plan.target_shape.rayon_num_threads "1") rayon
  require (str_eq plan.target_shape.candle_num_threads "unset") candle
  require (str_eq plan.target_shape.qos_class "Guaranteed") qos
  require
      (str_eq plan.target_shape.request_cpu "2"
        && str_eq plan.target_shape.request_memory "4Gi"
        && str_eq plan.target_shape.limit_cpu "2"
        && str_eq plan.target_shape.limit_memory "4Gi")
      resources

unfoldable pub is_knee : Cell → Bool
is_knee cell = elim cell.phase [ knee ↦ true | _ ↦ false ]

unfoldable pub has_block : ℕ → Cell → Bool
has_block block cell = elim cell.block [ some b ↦ b == block | none ↦ false ]

is_period_a : Cell → Bool
is_period_a cell = elim cell.period [ some period_a ↦ true | _ ↦ false ]

is_period_b : Cell → Bool
is_period_b cell = elim cell.period [ some period_b ↦ true | _ ↦ false ]

-- `{cell["period"] for cell in pair} == {"A", "B"}`
unfoldable pub both_periods : List Cell → Bool
unfolding is_period_a is_period_b
both_periods pair =
    all (λ cell. is_period_a cell || is_period_b cell) pair
    && any is_period_a pair
    && any is_period_b pair

-- `len(set(rates)) == 1`
unfoldable pub is_pure : List ℕ → Bool
is_pure [] = false
is_pure (rate ∷ rates) = all (λ r. r == rate) rates

-- `active_rates[0]`, which the tests before it make safe
unfoldable pub first_rate : List ℕ → ℕ
first_rate [] = 0
first_rate (rate ∷ rates) = rate

-- The loop over the two cells of a block, which collects their rates.
unfoldable pub pair_rates : ℕ → List Cell → Result Fault (List ℕ)
pair_rates replicas [] = ok []
pair_rates replicas (cell ∷ cells) = do
  let rates = active_rates cell.endpoint_offered_rps
  require (length rates == replicas) (coverage cell.cell_id)
  require (is_pure rates) (impure_rate cell.cell_id)
  rest ← pair_rates replicas cells
  ok (first_rate rates ∷ rest)

-- `set(rates) == {41, 42}`
unfoldable pub is_41_42 : List ℕ → Bool
is_41_42 rates = all (λ r. r == 41 || r == 42) rates && elem 41 rates && elem 42 rates

unfoldable pub validate_block : ℕ → List Cell → ℕ → Result Fault (Unit {0})
validate_block replicas knee_cells block = do
  let pair = keep (has_block block) knee_cells
  require (length pair == 2 && both_periods pair) (periods block)
  rates ← pair_rates replicas pair
  require (is_41_42 rates) (impure_pair block)

unfoldable pub validate_blocks : ℕ → List Cell → List ℕ → Result Fault (Unit {0})
validate_blocks replicas knee_cells [] = ok tt
validate_blocks replicas knee_cells (block ∷ blocks) = do
  validate_block replicas knee_cells block
  validate_blocks replicas knee_cells blocks

bool_eq : Bool → Bool → Bool
bool_eq true b = b
bool_eq false true = false
bool_eq false false = true

-- `==` of the two dictionaries, key by key
unfoldable pub reservation_eq : Reservation → Reservation → Bool
unfolding bool_eq
reservation_eq r s =
    r.namespace_start == s.namespace_start
    && r.namespace_end == s.namespace_end
    && r.span == s.span
    && r.start_inclusive == s.start_inclusive
    && r.end_exclusive == s.end_exclusive
    && r.allocated_jobs == s.allocated_jobs
    && r.allocated_end_exclusive == s.allocated_end_exclusive
    && bool_eq r.never_recycle_if_ledger_exists s.never_recycle_if_ledger_exists

option_eq : Option String → Option String → Bool
option_eq none none = true
option_eq none (some b) = false
option_eq (some a) none = false
option_eq (some a) (some b) = str_eq a b

unfoldable pub identity_eq : Identity → Identity → Bool
unfolding option_eq
identity_eq i j =
    str_eq i.target_image j.target_image
    && str_eq i.driver_image j.driver_image
    && str_eq i.driver_source_sha256 j.driver_source_sha256
    && str_eq i.model_sha256 j.model_sha256
    && str_eq i.tokenizer_sha256 j.tokenizer_sha256
    && i.token_count_including_specials == j.token_count_including_specials
    && str_eq i.generator_scheme j.generator_scheme
    && str_eq i.corpus_mode j.corpus_mode
    && option_eq i.corpus_digest j.corpus_digest

unfoldable pub validate_reservation : Plan → Ledger → Result Fault (Unit {0})
validate_reservation plan ledger = do
  require (leb 22_000_000_000 plan.sequence_reservation.start_inclusive) namespace_start
  require (leb plan.sequence_reservation.end_exclusive 23_000_000_000) namespace_end
  require (str_eq ledger.reservation_status "claimed_by_plan") unclaimed
  require (reservation_eq ledger.reservation plan.sequence_reservation) reservation_mismatch
  require (identity_eq ledger.identity plan.identity) identity_mismatch
