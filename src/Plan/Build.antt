-- ===== src/Plan/Build.antt =====
-- hack/arena-sc-horizontal-scale-plan.py: `build_plan`, which gives each endpoint of each cell a job
-- and an interval of sequence numbers, and writes the plan with its ledger.
-- `hashlib.sha256(...).hexdigest()` is the parameter `sha256_hex`.
use llm_d_sc_benchmark.Prelude.{
  ℕ, ◌+◌, ◌-◌, ◌*◌, ◌/◌, String, Bool, true, false, ◌&&◌, ◌||◌, Option, none, some, List, [], ◌∷◌,
  ◌++◌, ℤ, pos, negsuc, Result, ok, err, ◌>>=◌, ◌>>◌, require, ltb, leb, ◌==◌, length, get_elem?,
}
use llm_d_sc_benchmark.Prelude.Decimal.{Text, codes, decimal, pad2, is_digit}
use llm_d_sc_benchmark.Plan.Types.{
  PlanError, bad_run_id, long_run_id, bad_campaign_index, allocation_exceeded, no_rate, Cell, Job,
  Entry, Lifecycle, Reservation, sequence_namespace_start, sequence_namespace_end, campaign_span,
  job_sequence_span, max_rows,
}

abbrev pub driver_image : String
driver_image =
    "image-registry.openshift-image-registry.svc:5000/llm-d-sc-gremlins/llm-d-sc-benchmark-driver-armed-51541f00e5fa@sha256:ef0f32ad3a7a29f4cd1f68ae8b8cfbc1bf36d66a173df8f68fd531db9d762aae"

abbrev pub driver_source_sha256 : String
driver_source_sha256 = "51541f00e5fa6e1918b4e57b9bfa432337345b1854b7289c836c3752543929d9"

abbrev pub target_image : String
target_image = "sha256:04323612ce3f73873b4c3ed6e09264e828241537e2c1a4231b43f32e9744d5aa"

abbrev pub model_sha256 : String
model_sha256 = "7914abbd152278879b4c3235d188e3006753bb778b7de6266fbcbe4c4ba2ef2f"

abbrev pub tokenizer_sha256 : String
tokenizer_sha256 = "851ca67100d372ca3ae031a6abd168f53489eebfd7d89523f35c5c9b4d372c3c"

abbrev pub generator_scheme : String
generator_scheme = "alpha_bravo_lsb_identity_service_fill_v1"

is_label_end : ℕ → Bool
is_label_end c = is_digit c || leb b'a' c && leb c b'z'

is_label_char : ℕ → Bool
unfolding is_label_end
is_label_char c = c == b'-' || is_label_end c

-- The last character is one that may end a label, and all are label characters.
label_tail : Text → Bool
label_tail [] = true
label_tail (c ∷ []) = is_label_end c
label_tail (c ∷ d ∷ s) = is_label_char c && label_tail (d ∷ s)

-- `re.fullmatch(r"[a-z0-9](?:[-a-z0-9]*[a-z0-9])?", run_id)`
unfoldable pub is_dns_label : Text → Bool
unfolding is_label_end is_label_char label_tail
is_dns_label [] = false
is_dns_label (c ∷ s) = is_label_end c && label_tail s

unfoldable pub check_run_id : Text → Result PlanError (Unit {0})
check_run_id run_id = do
  require (is_dns_label run_id) bad_run_id
  require (leb (length run_id) 38) long_run_id

-- The index of a campaign in the audited namespace.
unfoldable pub check_campaign_index : ℤ → Result PlanError ℕ
check_campaign_index (pos n) = do
  require (ltb n ((sequence_namespace_end - sequence_namespace_start) / campaign_span))
      bad_campaign_index
  ok n
check_campaign_index (negsuc n) = err bad_campaign_index

-- The loop's variables: the next allocation, and the two lists that it appends to.
pub record Progress : Type 0 where
  pub allocation : ℕ
  pub entries : List Entry
  pub jobs : List Job

-- `cell["endpoint_offered_rps"][endpoint]`, used as a number
unfoldable pub rate_of : List (Option ℕ) → ℕ → Result PlanError ℕ
rate_of rates endpoint = elim (get_elem? rates endpoint) [
  | some (some rate) ↦ ok rate
  | some none ↦ err no_rate
  | none ↦ err no_rate
]

abbrev pub reservation_start : ℕ → ℕ
reservation_start campaign_index = sequence_namespace_start + campaign_index * campaign_span

abbrev pub reservation_end : ℕ → ℕ
reservation_end campaign_index = reservation_start campaign_index + campaign_span

-- The "sequence_reservation" of the plan.
unfoldable pub make_reservation : ℕ → ℕ → Reservation
make_reservation campaign_index allocation = record {
  namespace_start = sequence_namespace_start;
  namespace_end = sequence_namespace_end;
  span = campaign_span;
  start_inclusive = reservation_start campaign_index;
  end_exclusive = reservation_end campaign_index;
  allocated_jobs = allocation;
  allocated_end_exclusive = reservation_start campaign_index + allocation * job_sequence_span;
  never_recycle_if_ledger_exists = true;
}

module _ (sha256_hex : Text → Text) (run_id : Text) (campaign_index : ℕ) where
  unfoldable pub job_name : ℕ → ℕ → Text
  job_name ordinal endpoint =
      codes "sso-" ++ (run_id ++ (codes "-c" ++ (pad2 ordinal ++ (codes "-e" ++ pad2 endpoint))))

  unfoldable pub nonce : ℕ → ℕ → ℕ → ℕ → Text
  nonce ordinal endpoint rate sequence_base =
      let bar = codes "|" in
      sha256_hex (
        run_id
        ++ (bar
            ++ (decimal campaign_index
                ++ (bar
                    ++ (decimal ordinal
                        ++ (bar
                            ++ (decimal endpoint
                                ++ (bar
                                    ++ (decimal rate
                                        ++ (bar
                                            ++ (decimal sequence_base
                                                ++ (bar ++ codes driver_image))))))))))))

  unfoldable pub make_job : ℕ → Cell → ℕ → ℕ → Job
  make_job allocation cell endpoint rate =
      let sequence_base = reservation_start campaign_index + allocation * job_sequence_span in
      record {
        allocation_ordinal = allocation;
        job_id = job_name cell.ordinal endpoint;
        cell_ordinal = cell.ordinal;
        cell_id = cell.cell_id;
        endpoint_ordinal = endpoint;
        offered_rps = rate;
        duration_seconds = cell.duration_seconds;
        expected_slots = rate * cell.duration_seconds;
        sequence_base = sequence_base;
        reserved_end_exclusive = sequence_base + job_sequence_span;
        candidate_rows = max_rows;
        max_in_flight = 512;
        arming_nonce = nonce cell.ordinal endpoint rate sequence_base;
      }

  unfoldable pub make_entry : ℕ → Cell → ℕ → Entry
  make_entry allocation cell endpoint =
      let sequence_base = reservation_start campaign_index + allocation * job_sequence_span in
      record {
        allocation_ordinal = allocation;
        job_id = job_name cell.ordinal endpoint;
        cell_id = cell.cell_id;
        endpoint_ordinal = endpoint;
        planned = record {
          sequence_base = sequence_base;
          candidate_rows = max_rows;
          start_inclusive = sequence_base;
          end_exclusive = sequence_base + job_sequence_span;
          expected_first_sequence = sequence_base;
          expected_last_sequence = sequence_base + max_rows;
        };
        armed = record {
          observed = false;
          scheduled_rows_blake3 = none;
          selected_rows_blake3 = none;
          config_digest = none;
          armed_epoch_ms = none;
        };
        emitted = record {
          observed = false;
          actual_first_sequence = none;
          actual_last_sequence = none;
          scheduled_rows_blake3 = none;
          completed_requests = none;
        };
        target_binding = record {
          endpoint_ordinal = endpoint;
          pod_name = none;
          pod_uid = none;
          pod_ip = none;
        };
        fresh_cache_counters = record {
          required = true;
          baseline_expected = record { served = 0; hits = 0; misses = 0 };
          baseline_observed = none;
          final_observed = none;
        };
        lifecycle_status = Lifecycle.planned;
      }

  -- The body of the inner loop: one job for one active endpoint.
  unfoldable pub place : Cell → ℕ → Progress → Result PlanError Progress
  place cell endpoint p = do
    rate ← rate_of cell.endpoint_offered_rps endpoint
    let reserved_end =
        (reservation_start campaign_index + p.allocation * job_sequence_span) + job_sequence_span
    require (leb reserved_end (reservation_end campaign_index)) allocation_exceeded
    ok (record {
      allocation = p.allocation + 1;
      entries = p.entries ++ make_entry p.allocation cell endpoint ∷ [];
      jobs = p.jobs ++ make_job p.allocation cell endpoint rate ∷ [];
    })

  -- The inner loop, which also collects `cell_jobs`.
  unfoldable pub place_endpoints :
      Cell → List ℕ → List Text → Progress → Result PlanError (List Text × Progress)
  place_endpoints cell [] cell_jobs p = ok (cell_jobs, p)
  place_endpoints cell (endpoint ∷ endpoints) cell_jobs p = do
    q ← place cell endpoint p
    place_endpoints cell endpoints (cell_jobs ++ job_name cell.ordinal endpoint ∷ []) q

  -- The outer loop; it sets `job_ids` in each cell.
  unfoldable pub place_cells :
      List Cell → List Cell → Progress → Result PlanError (List Cell × Progress)
  place_cells [] done p = ok (done, p)
  place_cells (cell ∷ cells) done p = do
    (cell_jobs, q) ← place_endpoints cell cell.active_endpoints [] p
    place_cells cells (done ++ record cell { job_ids = cell_jobs } ∷ []) q
