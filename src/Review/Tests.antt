-- ===== src/Review/Tests.antt =====
-- A queue of two sources, and the theorems at it.
use mathlib.Core.List.{map}
use jeonghan_daily_review_bo.Prelude.{
  ◌⊎◌, is_empty, Text, codes, text_dec, text_le, ◌≡◌, refl, inl, Bool, true, false, List, [], ◌∷◌,
  All, any, ◌===◌,
}
use jeonghan_daily_review_bo.Prelude.Table.{lookup, upsert, insert_ignore}
use jeonghan_daily_review_bo.Handles.{is_space, drop_while, strip, lstrip_at, queue_handle}
use jeonghan_daily_review_bo.Review.Rounds.{
  in_order, Draft, Round, Store, still_pending, is_waiting, pending_of,
}
use jeonghan_daily_review_bo.Review.Merge.{
  RawSource, pending_rows, ensure_source, ensure_all, numbered, add_name, configured_from,
  configured_sources, unknown_names, unknown_sources, name_of, item_of, add_item, merge_row,
  merge_rows, merge,
}
use jeonghan_daily_review_bo.Review.Activate.{
  reconcile_lanes, drop_stale, reconcile_states, is_next, is_unresolved, focus, turn_to,
  activate_next,
}
use jeonghan_daily_review_bo.Review.Queue.{
  new_round, sync_round, put_off, defer_round, rejoin, resume_round, on_round, sync_from, sync,
  defer, resume,
}
use jeonghan_daily_review_bo.Review.Calls.{
  Call, syncs, defers, resumes, step, run, IsOrderly, run-IsOrderly,
}
use jeonghan_daily_review_bo.Review.Serve.{IsServing, sync_round-IsServing}
use jeonghan_daily_review_bo.Review.Defer.{IsPutOff, resume-active_source, defer-IsPutOff}
use jeonghan_daily_review_bo.Review.Snapshot.{Snapshot, nowhere, snapshot}
use jeonghan_daily_review_bo.Review.Shown.{AreCounted, IsPlaced, snapshot-IsPlaced}
use jeonghan_daily_review_bo.Review.Closed.{sync_round-closed}

program : Unit {0}
unfolding text_dec text_le lookup upsert insert_ignore is_space drop_while strip lstrip_at
    queue_handle still_pending is_waiting pending_of pending_rows ensure_source ensure_all numbered
    add_name configured_from configured_sources unknown_names unknown_sources name_of item_of
    add_item merge_row merge_rows merge reconcile_lanes drop_stale reconcile_states is_next
    is_unresolved focus turn_to activate_next sync_round put_off defer_round rejoin resume_round
    on_round sync_from sync defer resume step run
program = tt

abbrev plain : Text → Text
plain s = s

abbrev sources : List RawSource
sources =
    record { handle = codes "@han"; enabled = true }
    ∷ record { handle = codes "@jeong"; enabled = true }
    ∷ []

abbrev draft : Text → Text → Bool → Draft
draft id s pending = record {
  draft_id = id;
  source = s;
  created_at = codes "2026";
  is_pending = pending;
}

abbrev inbox : List Draft
inbox = draft (codes "d1") (codes "jeong") true ∷ draft (codes "d2") (codes "han") true ∷ []

abbrev done_inbox : List Draft
done_inbox = draft (codes "d1") (codes "jeong") false ∷ []

abbrev empty_store : Store
empty_store = record { rounds = []; inbox = inbox }

abbrev first_round : Round
first_round = sync_round plain inbox sources (new_round (codes "r"))

abbrev active_after : List Call → List Text
active_after cs = map Round.active_source (run plain cs empty_store).rounds

in_file_order : active_after (syncs (codes "r") sources ∷ []) ≡ codes "han" ∷ []
unfolding program
in_file_order = refl

next_after_defer :
    active_after (syncs (codes "r") sources ∷ defers (codes "r") (codes "@han") ∷ [])
    ≡ codes "jeong" ∷ []
unfolding program
next_after_defer = refl

no_stealing :
    active_after (
      syncs (codes "r") sources
      ∷ defers (codes "r") (codes "@han")
      ∷ resumes (codes "r") (codes "@han")
      ∷ [])
    ≡ codes "jeong" ∷ []
unfolding program
no_stealing = refl

run-IsOrderly_example :
    IsOrderly plain
      (run plain (syncs (codes "r") sources ∷ defers (codes "r") (codes "@han") ∷ []) empty_store)
unfolding program
run-IsOrderly_example =
    run-IsOrderly plain refl (syncs (codes "r") sources ∷ defers (codes "r") (codes "@han") ∷ [])
      empty_store ((refl, (refl, tt)), (tt, tt))
      (record { focused = tt; settled = (refl, (refl, tt)) })

sync_round-IsServing_example :
    IsServing inbox (sync_round plain inbox sources (new_round (codes "r")))
unfolding program
sync_round-IsServing_example =
    sync_round-IsServing plain inbox refl refl sources (new_round (codes "r")) (refl, (refl, tt))
      (refl, (refl, tt)) (record { true_lanes = tt; has_active = inl refl })

sync_round-closed_example : any Draft.is_pending done_inbox ≡ false
unfolding program
sync_round-closed_example =
    sync_round-closed plain done_inbox sources first_round (refl, tt) (refl, (refl, tt)) refl refl

resume-active_source_example :
    (resume_round plain inbox (codes "jeong") first_round).round.active_source ≡ codes "han"
unfolding program
resume-active_source_example = resume-active_source plain inbox (codes "jeong") first_round refl

defer-IsPutOff_example :
    All (IsPutOff (codes "han")) (defer_round plain inbox (codes "han") first_round).round.lanes
    × (((defer_round plain inbox (codes "han") first_round).round.active_source === codes "han")
        ≡ false)
unfolding program
defer-IsPutOff_example = defer-IsPutOff plain inbox (codes "han") first_round refl refl

abbrev no_proof : Text → Text × Text
no_proof s = (codes "unknown", [])

abbrev first_snapshot : Snapshot
first_snapshot = snapshot plain no_proof inbox first_round

snapshot-IsPlaced_example :
    AreCounted plain no_proof inbox first_round (in_order first_round.lanes) first_snapshot.sources
    × (((is_empty (queue_handle plain first_round.active_source) ≡ true)
          × (first_snapshot.position ≡ nowhere))
        ⊎ IsPlaced 1
            (queue_handle plain first_round.active_source)
            first_snapshot.sources
            first_snapshot.position)
snapshot-IsPlaced_example = snapshot-IsPlaced plain no_proof inbox first_round
