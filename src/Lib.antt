-- ===== src/Lib.antt =====
-- A verification library for jeonghan-daily-review-bot, the private bot that collects updates from
-- configured X sources, translates them and delivers them to one Telegram chat for review.
--
-- The parts that are modelled, and the files that model them:
--   * Completeness (app/completeness_engine.py, app/completeness_evidence.py and the proof core
--     rust/editorial-core/src/lib.rs): which sources were read completely in a time window, and up
--     to when. Completeness/Core.antt is the core and the subprocess call that reaches it,
--     Evidence.antt the traversal evidence and the verdict, Rows.antt the SQLite tables,
--     Attempts.antt `plan`, `start`, `checkpoint`, `link_observation` and `close_run`, Finish.antt
--     `finish`. Steps.antt puts every writing call into one machine, and the files after it prove
--     properties of whole histories of calls.
--   * Telegram (app/telegram.py, app/message_delivery.py): Cut.antt and Chunks.antt split a long
--     text, Split.antt adds the labels, Receipts.antt is the store of receipts and plans, Send.antt
--     is `send_message`, Api.antt and Tries.antt the retry loop of `api`. Noted.antt, Resume.antt,
--     Retry.antt, Posts.antt and Lost.antt follow deliveries that are interrupted, of which Telegram may have
--     taken more than the store has receipts for.
--   * Ledger (app/source_ledger.py): Rows.antt has the tables and `SourceWindowResult`, Windows.antt
--     `start_attempt`, `finish` and the reads, Watermark.antt and Source.antt follow the watermark of
--     a source through any calls.
--   * Review (app/source_first_queue.py): the review queue that serves one source at a time.
--     Rounds.antt has the tables, a session as a round with its lanes (source_review_sources) and
--     items; Merge.antt the first half of `sync`, Activate.antt `_reconcile_states` and
--     `_activate_next`, Queue.antt the calls, Snapshot.antt `snapshot`, which Shown.antt is about. Focus.antt, Reconcile.antt, Merged.antt and Moves.antt
--     follow the active source through each of them, and Calls.antt through any sequence of calls;
--     Serve.antt, Defer.antt, Covered.antt and Closed.antt say what a call leaves behind.
--   * Callbacks (app/callback_store.py): Tokens.antt has `encode`, `decode` and `prune`,
--     Roundtrip.antt their round trip.
--   * State (app/state.py, app/models.py, and the calls that app/zero_silent_miss.py puts in place of
--     those of the state): Rows.antt has the data, Store.antt the delivery queue of app/state.py,
--     Lifecycle.antt and Queue.antt the queue with lifecycle records and a quarantine, Calls.antt the
--     other calls. Pending.antt, Blocked.antt and Kept.antt follow the rows of one `pop_pending`,
--     Waits.antt an update through any calls, Fresh.antt and Replayed.antt are about
--     `apply_fresh_start`. Models.antt has the data classes of app/models.py, Rows.antt
--     `Update.from_dict` and `MediaItem.from_dict`, Reloaded.antt is about their round trip with `to_dict`.
--   * Inbox (app/review_inbox.py): Store.antt has the calls, Pages.antt is about `list_items`,
--     Synced.antt about `sync_from_state`, Decided.antt follows the decision on a draft.
--   * Events: whether two posts are about one event (app/event_fusion.py, Match.antt and Matched.antt)
--     and about one moment of it (app/event_timeline.py, Clues.antt, Segments.antt and Segmented.antt),
--     and to which earlier group a group belongs (app/editorial_order.py, Related.antt and Best.antt);
--     Sets.antt has sets of texts. Scores are in hundredths.
--   * Media (app/media_delivery.py): Ledger.antt has the receipts of delivered media, Recent.antt
--     follows one through later deliveries and prunes.
--   * Reminders (app/reminder_queue.py): Store.antt has the calls, Settled.antt and Quiet.antt follow
--     a reminder through any of them.
--   * Outcome (app/production_outcome.py): Counters.antt has the data classes, Builder.antt
--     `OutcomeBuilder`, Classify.antt the status of a run, Sound.antt what a status says.
--   * Names.antt (app/production_outcome.py, app/source_health.py): the names of errors and sources
--     that are stored.
--   * Handles.antt: the normalisation of source handles.
-- Prelude holds shared helpers: Texts.antt for Python's `str` (a list of code points, ordered as
-- SQLite orders UTF-8), Table.antt for SQLite tables with a text key, Lists.antt for lists, Sort.antt for `ORDER BY`
-- and `sorted`.
--
-- How the code is read. A SQLite table is the list of its rows in insertion order; `INSERT OR
-- IGNORE`, `ON CONFLICT DO UPDATE`, `UPDATE ... WHERE` and `DELETE` are functions on such lists. A
-- transaction that raises is rolled back, so an operation returns a new state or an error. JSON
-- objects are lists of members. Enumerated status texts are data types. Counters are natural
-- numbers. What the code takes from outside is a parameter: `str.casefold`, `uuid4`, the clock,
-- SHA-256, the RFC 3339 parser, the answers of the network.
--
-- The review queue. It reads the inbox, a table that another component writes and that is taken to
-- exist; between calls the inbox may change in any way. Normalizing a handle twice need not give what
-- normalizing it once gives ("@ a" becomes " a", then "a"), and the code normalizes the active source
-- again when it reads it, so theorems ask that the names that come in are settled by one round.
--
-- Fuel. `split_unlabeled` takes one unit a round, and each round cuts off at least one character,
-- so the length of the text is enough. `settle`, the loop on the number of labelled parts, takes
-- fuel too, and is used only where its result is known.
--
-- Not modelled: scraping, media download and re-encoding, the language models and their prompts,
-- the web server, logging, and the state codecs.
mod Prelude
pub mod Models
pub mod Reminders
pub mod Media
pub mod Inbox
pub mod Events
pub mod State
pub mod Outcome
pub mod Names
pub mod Callbacks
pub mod Ledger
pub mod Review
pub mod Handles
pub mod Telegram
pub mod Completeness
