-- ===== src/Editing/Tests.antt =====
-- Theorems on the watcher of backend/src/remote_edit.rs at concrete inputs.
use dbx_plugin_files.Prelude.{
  ◌+◌, ◌≤◌, ◌≡◌, refl, true, false, List, [], ◌∷◌, ◌++◌, replicate, none, some,
}
use dbx_plugin_files.Prelude.Text.{codes}
use dbx_plugin_files.Editing.Watch.{
  Status, EditSession, WatchDecision, Decide, Event, differs, tick_watch, run,
}
use dbx_plugin_files.Editing.Gate.{IsGated, syncs, approvals, weight, run-approvals}
use dbx_plugin_files.Editing.Settling.{polls, polls-retry, tick_watch_unsettled}

abbrev opened : EditSession
opened = record {
  key = codes "k";
  connection_id = codes "c1";
  remote_path = codes "/docs/a.txt";
  local_path = codes "/tmp/a.txt";
  status = Status.watching;
  last_error = none;
  last_sync_at = none;
  created_at = 1;
  baseline = some (10, 100);
  pending_stable = 0;
  error_ticks = 0;
  sync_seq = 0;
  closing = false;
  upload_ask = true;
  always_upload = false;
  pending_confirm = false;
  sync_requested = false;
}

abbrev saved : List Event
saved =
    Event.ticks (some (11, 200))
    ∷ Event.ticks (some (11, 200))
    ∷ Event.decides Decide.upload (some (11, 200))
    ∷ Event.ticks (some (11, 200))
    ∷ []

saved_asks_first :
    (run saved opened).0 ≡ WatchDecision.continue ∷ WatchDecision.ask ∷ WatchDecision.sync ∷ []
unfolding run
saved_asks_first = refl

run-approvals_example :
    (syncs (run saved opened).0 + weight (run saved opened).1 ≤ approvals saved + weight opened)
    × IsGated (run saved opened).1
run-approvals_example = run-approvals saved opened (refl, refl) (refl, (refl, (refl, (refl, tt))))

tick_watch_unsettled_example :
    ((tick_watch opened (some (11, 200))).0 ≡ WatchDecision.continue)
    × ((tick_watch (tick_watch opened (some (11, 200))).1 (some (12, 300))).0 ≡ WatchDecision.ask)
unfolding differs
tick_watch_unsettled_example =
    tick_watch_unsettled opened (11, 200) (12, 300)
      (record { live = refl; settled_question = refl; unasked = refl; ready = refl }) refl refl refl
      refl

abbrev broken : EditSession
broken = record opened { status = Status.failed; error_ticks = 17; upload_ask = false }

polls-retry_example :
    polls broken (((11, 200) ∷ (11, 200) ∷ []) ++ ((12, 300) ∷ []))
    ≡ replicate 2 WatchDecision.continue ++ (WatchDecision.sync ∷ [])
unfolding differs
polls-retry_example =
    polls-retry 2 broken ((11, 200) ∷ (11, 200) ∷ []) (12, 300)
      (record { live = refl; settled_question = refl; unasked = refl; ready = refl }) refl refl refl
      (refl, (refl, (refl, tt)))
