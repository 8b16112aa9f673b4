-- ===== src/Reminders/Tests.antt =====
-- A concrete run of the reminders, and an instance of each property of them.
use jeonghan_daily_review_bo.Prelude.{
  codes, ◌≡◌, refl, false, any, none, some, List, [], ◌∷◌, text_dec, text_le,
}
use jeonghan_daily_review_bo.Prelude.Table.{lookup}
use jeonghan_daily_review_bo.Reminders.Store.{pending, ReminderJob, get, due, mark_sent}
use jeonghan_daily_review_bo.Reminders.Settled.{Call, added, marked, dropped, run, run-get}
use jeonghan_daily_review_bo.Reminders.Quiet.{has_id, due-mark_sent}

abbrev job : ReminderJob
job = record {
  id = codes "j1";
  draft_id = codes "d1";
  due_at = codes "2025";
  status = pending;
  label = [];
  created_at = codes "2024";
  reminded_at = [];
}

abbrev others : List Call
others =
    added (codes "j2") (codes "d2") none [] (codes "2024") ∷ marked (codes "j2") (codes "2026") ∷ []

listed : due (codes "2026") 20 (job ∷ []) ≡ job ∷ []
unfolding due text_le
listed = refl

run-get_example : get (codes "j1") (run others (job ∷ [])) ≡ some job
unfolding get lookup text_dec
run-get_example = run-get (codes "j1") others (job ∷ []) job refl refl

abbrev again : List Call
again =
    added (codes "j1") (codes "d3") (some (codes "2025")) [] (codes "2027")
    ∷ marked (codes "j1") (codes "2027")
    ∷ dropped (codes "j1")
    ∷ []

due-mark_sent_example :
    any
      (has_id (codes "j1"))
      (due (codes "2028") 20 (run again (mark_sent (codes "j1") (codes "2026") (job ∷ []))))
    ≡ false
unfolding get lookup text_dec
due-mark_sent_example =
    due-mark_sent (codes "j1") (codes "2026") (codes "2028") 20 again (job ∷ []) job refl
