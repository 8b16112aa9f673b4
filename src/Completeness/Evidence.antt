-- ===== src/Completeness/Evidence.antt =====
-- What a traversal of one source observed, and the proof and the verdict that follow from it:
-- app/completeness_evidence.py, and `proof_inputs` and `_verdict_metadata` of
-- app/completeness_engine.py. A Python set is the list of its members.
use jeonghan_daily_review_bo.Prelude.{
  ℕ, ◌+◌, Text, codes, ◌===◌, Bool, not, ◌&&◌, ◌||◌, List, [], ◌∷◌, ◌++◌, take, select, any, ◌==◌,
  if◌then◌else◌, is_empty,
}
use jeonghan_daily_review_bo.Completeness.Core.{Proof, Status, is_complete, is_partial}

pub record Evidence : Type 0 where
  pub pages : ℕ
  pub raw_count : ℕ
  pub observation_ids : List Text
  pub expected_window_ids : List Text
  pub provider_cursor : Text
  pub exhausted : Bool
  pub valid_response : Bool
  pub resumed : Bool
  pub lower_boundary : Bool
  pub lower_boundary_proven : Bool
  pub timeline_order_valid : Bool
  pub newest_top_level_at : Text
  pub oldest_top_level_at : Text

abbrev pub mem : Text → List Text → Bool
mem x xs = any (λ y. y === x) xs

-- `set.add`
unfoldable pub add : Text → List Text → List Text
add x xs = if mem x xs then xs else xs ++ x ∷ []

-- `record_page` and `record_observation`, on the evidence that is active.
unfoldable pub record_page : ℕ → Text → Bool → Evidence → Evidence
record_page count cursor valid e = record e {
  valid_response = if e.pages == 0 then valid else e.valid_response && valid;
  pages = e.pages + 1;
  raw_count = e.raw_count + count;
  provider_cursor = take 4096 cursor;
}

unfoldable pub record_observation : Text → Evidence → Evidence
unfolding add
record_observation post_id e = record e { observation_ids = add post_id e.observation_ids }

-- The dict that goes with the proof into the stored evidence. The two counts and the sorting of
-- the identifier lists are those of the report only.
pub record Detail : Type 0 where
  pub provider_exhausted : Bool
  pub lower_boundary_observed : Bool
  pub lower_boundary_proven : Bool
  pub timeline_order_valid : Bool
  pub expected_window_ids : List Text
  pub missing_expected_ids : List Text
  pub expected_coverage_complete : Bool
  pub terminal_proven : Bool

-- `{str(value) for value in ids if str(value)}`
abbrev pub named : List Text → List Text
named = select (λ x. not (is_empty x))

-- `expected - observed`
abbrev pub missing_of : Evidence → List Text
missing_of e = select (λ x. not (mem x (named e.observation_ids))) (named e.expected_window_ids)

abbrev pub ordered_boundary : Evidence → Bool
ordered_boundary e = e.lower_boundary_proven && e.timeline_order_valid && is_empty (missing_of e)

abbrev pub terminal_proven : Evidence → Bool
terminal_proven e =
    e.timeline_order_valid && is_empty (missing_of e) && (e.exhausted || ordered_boundary e)

unfoldable pub proof_of : Evidence → Text → Proof
proof_of e error_class = record {
  pages = e.pages;
  raw_count = e.raw_count;
  valid_response = e.valid_response;
  exhausted = terminal_proven e;
  resumed = e.resumed;
  lower_boundary = e.lower_boundary && not (ordered_boundary e);
  failed = not (is_empty error_class);
}

unfoldable pub detail_of : Evidence → Detail
detail_of e = record {
  provider_exhausted = e.exhausted;
  lower_boundary_observed = e.lower_boundary;
  lower_boundary_proven = e.lower_boundary_proven;
  timeline_order_valid = e.timeline_order_valid;
  expected_window_ids = named e.expected_window_ids;
  missing_expected_ids = missing_of e;
  expected_coverage_complete = is_empty (missing_of e);
  terminal_proven = terminal_proven e;
}

pub data ProofKind : Type 0 where
  validated_provider_exhaustion validated_ordered_lower_boundary : ProofKind
  unproven_core_unavailable : ProofKind
  partial_provider_failure partial_resumed_checkpoint partial_observation_coverage_gap : ProofKind
  partial_timeline_order_invalid partial_invalid_provider_response : ProofKind
  partial_unproven_termination : ProofKind
  unproven_provider_failure unproven_resumed_checkpoint unproven_no_validated_page : ProofKind
  unproven_invalid_provider_response unproven_timeline_order_invalid : ProofKind
  unproven_observation_coverage_gap unproven_ambiguous_termination : ProofKind
  unproven_interrupted unproven_not_attempted : ProofKind

pub data Reason : Type 0 where
  provider_pagination_exhausted window_lower_boundary_crossed : Reason
  deterministic_core_unavailable : Reason
  provider_failure : Text → Reason
  resume_continuity_not_proven expected_observation_missing timeline_order_not_proven : Reason
  provider_response_not_proof_eligible terminal_condition_not_proven : Reason
  no_validated_provider_page attempt_interrupted source_not_attempted : Reason

abbrev pub core_unavailable : Text
core_unavailable = codes "EditorialCoreUnavailable"

-- `f"provider_failure:{error_class}"[:160]`
abbrev pub failure_reason : Text → Reason
failure_reason error_class = provider_failure (take 160 (codes "provider_failure:" ++ error_class))

-- The branches under `if status == "partial"`.
unfoldable pub partial_metadata : Evidence → Detail → Text → ProofKind × Reason
partial_metadata e d error_class =
    if not (is_empty error_class)
    then (partial_provider_failure, failure_reason error_class)
    else if e.resumed
    then (partial_resumed_checkpoint, resume_continuity_not_proven)
    else if not (is_empty d.missing_expected_ids)
    then (partial_observation_coverage_gap, expected_observation_missing)
    else if not d.timeline_order_valid
    then (partial_timeline_order_invalid, timeline_order_not_proven)
    else if not e.valid_response
    then (partial_invalid_provider_response, provider_response_not_proof_eligible)
    else (partial_unproven_termination, terminal_condition_not_proven)

-- The branches at the end of the function.
unfoldable pub unproven_metadata : Evidence → Detail → Text → ProofKind × Reason
unproven_metadata e d error_class =
    if not (is_empty error_class)
    then (unproven_provider_failure, failure_reason error_class)
    else if e.resumed
    then (unproven_resumed_checkpoint, resume_continuity_not_proven)
    else if e.pages == 0
    then (unproven_no_validated_page, no_validated_provider_page)
    else if not e.valid_response
    then (unproven_invalid_provider_response, provider_response_not_proof_eligible)
    else if not d.timeline_order_valid
    then (unproven_timeline_order_invalid, timeline_order_not_proven)
    else if not (is_empty d.missing_expected_ids)
    then (unproven_observation_coverage_gap, expected_observation_missing)
    else (unproven_ambiguous_termination, terminal_condition_not_proven)

-- `_verdict_metadata`
unfoldable pub verdict_metadata : Status → Evidence → Detail → Text → ProofKind × Reason
unfolding partial_metadata unproven_metadata
verdict_metadata status e d error_class =
    if is_complete status && d.provider_exhausted
    then (validated_provider_exhaustion, provider_pagination_exhausted)
    else if is_complete status && d.lower_boundary_proven
    then (validated_ordered_lower_boundary, window_lower_boundary_crossed)
    else if error_class === core_unavailable
    then (unproven_core_unavailable, deterministic_core_unavailable)
    else if is_partial status
    then partial_metadata e d error_class
    else unproven_metadata e d error_class
