-- ===== src/Outcome/Sound.antt =====
-- What the status that `OutcomeBuilder.finalize` of app/production_outcome.py gives a run says of it.
use jeonghan_daily_review_bo.Prelude.{
  ℕ, ◌+◌, ◌<◌, Text, ◌≡◌, refl, ap, inl, inr, Bool, true, false, List, [], ◌∷◌, length,
  length-append, any, ltb, ◌==◌, arith, Bool-cases,
}
use jeonghan_daily_review_bo.Names.{truncate_error_class, normalize_source_handle}
use jeonghan_daily_review_bo.Outcome.Counters.{
  OutcomeStatus, healthy, SourceCollection, Reason, partial_collection_cursor_held,
  large_backlog_accumulated, recovery_dispatch_recommended, ProductionOutcome, fresh_outcome,
}
use jeonghan_daily_review_bo.Outcome.Classify.{
  append_if, asks_recovery, recovery_reasons, degraded_reasons, classify_degraded, classify_outcome,
  all_sources_failed, state_lost, database_lost, large_backlog, some_undelivered, none_delivered,
  held_partial,
}
use jeonghan_daily_review_bo.Outcome.Builder.{
  Call, record_source_attempt, record_ai_job, record_delivery, set_backlog, source_attempt, step,
  run, finalize,
}

abbrev pub IsCountedSources : SourceCollection → Type 0
IsCountedSources sc =
    (sc.attempted_source_count
      ≡ sc.complete_source_count + sc.failed_source_count + sc.partial_source_count)
    × (length sc.failed_source_handles ≡ sc.failed_source_count)
    × (length sc.failed_source_reasons ≡ sc.failed_source_count)

-- The totals are the sums of their parts, and each failed source has a name and a reason.
abbrev pub IsCounted : ProductionOutcome → Type 0
IsCounted o =
    IsCountedSources o.source_collection
    × (o.ai.ai_jobs_attempted ≡ o.ai.ai_jobs_successful + o.ai.ai_jobs_failed)
    × (o.telegram.delivery_attempt_count
        ≡ o.telegram.delivery_success_count + o.telegram.delivery_failure_count)
    × (o.state.backlog_present ≡ ltb 0 o.state.backlog_count)

module _ (casefold lower : Text → Text) where
  attempt-IsCounted :
      (handle : Text) (complete : Bool) (error : Text) (sc : SourceCollection)
      → IsCountedSources sc
      → IsCountedSources (source_attempt casefold lower handle complete error sc)
  unfolding source_attempt
  attempt-IsCounted handle complete error sc h =
      let handles =
        length-append sc.failed_source_handles (normalize_source_handle lower handle ∷ []) in
      let reasons =
        length-append sc.failed_source_reasons (truncate_error_class casefold error ∷ []) in
      ground (arith, h, handles, reasons)

  step-IsCounted :
      (c : Call) (o : ProductionOutcome) → IsCounted o → IsCounted (step casefold lower c o)
  unfolding step
  step-IsCounted (record_source_attempt handle complete error) o
        (sources, jobs, deliveries, backlog) =
      (
        attempt-IsCounted handle complete error o.source_collection sources,
        jobs,
        deliveries,
        backlog,
      )
  step-IsCounted (record_delivery true) o (sources, jobs, deliveries, backlog) =
      (sources, jobs, omega (arith, deliveries), backlog)
  step-IsCounted (record_delivery false) o (sources, jobs, deliveries, backlog) =
      (sources, jobs, omega (arith, deliveries), backlog)
  step-IsCounted (record_ai_job true timeout fallback) o (sources, jobs, deliveries, backlog) =
      (sources, omega (arith, jobs), deliveries, backlog)
  step-IsCounted (record_ai_job false timeout fallback) o (sources, jobs, deliveries, backlog) =
      (sources, omega (arith, jobs), deliveries, backlog)
  step-IsCounted (set_backlog n) o (sources, jobs, deliveries, backlog) =
      (sources, jobs, deliveries, refl)
  step-IsCounted _ o h = h

  run-IsCounted :
      (cs : List Call) (o : ProductionOutcome) → IsCounted o → IsCounted (run casefold lower cs o)
  unfolding run
  run-IsCounted [] o h = h
  run-IsCounted (c ∷ cs) o h = run-IsCounted cs (step casefold lower c o) (step-IsCounted c o h)

  -- In the outcome that any calls of the builder lead to, the attempted sources are the complete, the
  -- failed and the partial ones, with a name and a reason for each failed one, the attempted jobs of
  -- the writer are those that succeeded and those that failed, and so are the attempted deliveries; a
  -- backlog is present just where it is not empty.
  pub finalize-IsCounted :
      (cs : List Call) → IsCounted (finalize (run casefold lower cs fresh_outcome))
  unfolding finalize
  finalize-IsCounted cs = run-IsCounted cs fresh_outcome ((refl, refl, refl), refl, refl, refl)

-- What a healthy run is free of.
abbrev pub IsClean : ProductionOutcome → Type 0
IsClean o =
    (o.telegram.delivery_failure_count ≡ 0)
    × (o.telegram.media_delivery_failure_count ≡ 0)
    × (o.ai.fallback_writer_count ≡ 0)
    × (o.ai.translation_deferral_count ≡ 0)
    × (o.recovery.recovery_dispatch_recommended ≡ false)
    × (state_lost o ≡ false)
    × (database_lost o ≡ false)
    × (large_backlog o ≡ false)

is_healthy : OutcomeStatus → Bool
is_healthy healthy = true
is_healthy _ = false

append_if-empty :
    (b : Bool) (r : Reason) (rs : List Reason) → append_if b r rs ≡ [] → (b ≡ false) × (rs ≡ [])
append_if-empty true r [] h = absurd (ground arith)
append_if-empty true r (x ∷ rs) h = absurd (ground arith)
append_if-empty false r rs h = (refl, h)

not_dispatched :
    (dispatch backlog held : Bool)
    → any asks_recovery (
        append_if dispatch recovery_dispatch_recommended (
          append_if backlog large_backlog_accumulated
            (append_if held partial_collection_cursor_held [])))
      ≡ false
    → dispatch ≡ false
not_dispatched false backlog held h = refl
not_dispatched true true true h = absurd (ground arith)
not_dispatched true true false h = absurd (ground arith)
not_dispatched true false true h = absurd (ground arith)
not_dispatched true false false h = absurd (ground arith)

degraded-empty :
    (o : ProductionOutcome) (rs : List Reason)
    → is_healthy (classify_degraded o rs).status ≡ true
    → rs ≡ []
unfolding is_healthy
degraded-empty o [] h = refl
degraded-empty o (r ∷ rs) h = absurd (ground arith)

classify-healthy :
    (o : ProductionOutcome)
    → is_healthy (classify_outcome o).status ≡ true
    → (any asks_recovery (recovery_reasons o) ≡ false)
      × (degraded_reasons o ≡ [])
      × (state_lost o ≡ false)
      × (database_lost o ≡ false)
unfolding is_healthy classify_outcome
classify-healthy o h = elim (Bool-cases (all_sources_failed o)) [
  | inl a ↦ absurd (ground (arith, a, classify_outcome))
  | inr a ↦ elim (Bool-cases (state_lost o)) [
    | inl b ↦ absurd (ground (arith, a, b))
    | inr b ↦ elim (Bool-cases (database_lost o)) [
      | inl c ↦ absurd (ground (arith, a, b, c))
      | inr c ↦ elim (Bool-cases (any asks_recovery (recovery_reasons o))) [
        | inl d ↦ absurd (ground (arith, a, b, c, d))
        | inr d ↦ (
          d,
          degraded-empty o (degraded_reasons o) (rw (classify_outcome, a, b, c, d) at h),
          b,
          c,
        )
      ]
    ]
  ]
]

degraded_reasons-empty :
    (o : ProductionOutcome)
    → degraded_reasons o ≡ []
    → (large_backlog o ≡ false)
      × (ltb 0 o.telegram.media_delivery_failure_count ≡ false)
      × (none_delivered o ≡ false)
      × (some_undelivered o ≡ false)
      × (ltb 0 o.ai.translation_deferral_count ≡ false)
      × (ltb 0 o.ai.fallback_writer_count ≡ false)
unfolding degraded_reasons
degraded_reasons-empty o h =
    let (cursor, e1) = append_if-empty _ _ _ h in
    let (backlog, e2) = append_if-empty _ _ _ e1 in
    let (media, e3) = append_if-empty _ _ _ e2 in
    let (total, e4) = append_if-empty _ _ _ e3 in
    let (part, e5) = append_if-empty _ _ _ e4 in
    let (deferral, e6) = append_if-empty _ _ _ e5 in
    let (fallback, e7) = append_if-empty _ _ _ e6 in
    (backlog, media, total, part, deferral, fallback)

healthy-IsClean :
    (o : ProductionOutcome)
    → IsCounted o
    → is_healthy (classify_outcome o).status ≡ true
    → IsClean o
unfolding recovery_reasons
healthy-IsClean o (sources, jobs, deliveries, backlog) h =
    let (calm, none_left, state, database) = classify-healthy o h in
    let (large, media, total, part, deferral, fallback) = degraded_reasons-empty o none_left in
    (
      ground (arith, total, part, deliveries),
      ground (arith, media),
      ground (arith, fallback),
      ground (arith, deferral),
      not_dispatched o.recovery.recovery_dispatch_recommended (large_backlog o) (held_partial o)
          calm,
      state,
      database,
      large,
    )

-- A run that its builder finalizes as healthy, whatever calls it made, failed no delivery of a text or
-- of media, fell back on no writer, deferred no translation and was not recommended for recovery; it
-- stored its state if it attempted a source, and its database if it tried to, and left no large
-- backlog.
pub finalize-IsClean :
    (casefold lower : Text → Text) (cs : List Call)
    → (finalize (run casefold lower cs fresh_outcome)).outcome_status ≡ healthy
    → IsClean (finalize (run casefold lower cs fresh_outcome))
unfolding finalize is_healthy
finalize-IsClean casefold lower cs h =
    healthy-IsClean (run casefold lower cs fresh_outcome)
      (run-IsCounted casefold lower cs fresh_outcome ((refl, refl, refl), refl, refl, refl))
      (ap is_healthy h)

-- How many of the active sources failed has no part in the status of a run that has no partial source,
-- as long as not all of them failed.
pub classify-failed_sources :
    (o : ProductionOutcome) (n : ℕ)
    → o.source_collection.partial_source_count ≡ 0
    → o.source_collection.failed_source_count < o.source_collection.active_source_count
    → n < o.source_collection.active_source_count
    → classify_outcome
        (record o { source_collection = record o.source_collection { failed_source_count = n } })
      ≡ classify_outcome o
unfolding classify_outcome recovery_reasons degraded_reasons
classify-failed_sources o n p few fewer =
    let sc = o.source_collection in
    let now : (sc.failed_source_count == sc.active_source_count) ≡ false = ground (arith, few) in
    let then_ : (n == sc.active_source_count) ≡ false = ground (arith, fewer) in
    rw (classify_outcome, recovery_reasons, degraded_reasons, now, then_, p) refl
