-- ===== src/Scheduler/RunTests.antt =====
-- Tests of the run path of backend/src/scheduler/mod.rs, and its theorems at concrete inputs.
use dbx_plugin_files.Prelude.{
  ℕ, ◌*◌, ◌%◌, ◌≡◌, ◌==◌, ◌&&◌, refl, true, false, [], ◌∷◌, Option, none, some, arith,
  if◌then◌else◌, ok, map,
}
use dbx_plugin_files.Prelude.Text.{
  codes, text_eq, trim, trim_end_matches, trim_start_matches, is_whitespace, split_once,
}
use dbx_plugin_files.Scheduler.Validate.{validate}
use dbx_plugin_files.Cron.Fields.{parse, parse_value}
use dbx_plugin_files.Cron.Bits.{set_bit}
use dbx_plugin_files.Policy.Gates.{check_read, check_write}
use dbx_plugin_files.Policy.Resolve.{resolve, from_parts}
use dbx_plugin_files.Policy.Segments.{sanitize}
use dbx_plugin_files.Store.Rings.{RunRecord}
use dbx_plugin_files.Scheduler.Model.{ScheduleTask}
use dbx_plugin_files.Scheduler.Tasks.{update, updated, find_task, pair_changed, rewrite_task}
use dbx_plugin_files.Scheduler.Runs.{Moment, World, claim, due_ids, holds}
use dbx_plugin_files.Scheduler.Awaiting.{JobStatus, JobView, Outcome, await_job_terminal}
use dbx_plugin_files.Scheduler.Driving.{
  Engine, JobRequest, drive_run, stamps, stamp_resync, job_request, to_bisync_request,
}
use dbx_plugin_files.Scheduler.History.{hydrate, any_running}
use dbx_plugin_files.Scheduler.Steps.{start, next, claims}
use dbx_plugin_files.Scheduler.Flights.{flights}
use dbx_plugin_files.Scheduler.Flying.{Reach-single_flight}
use dbx_plugin_files.Scheduler.Resync.{drive_run-stamps, update_resync_lost}
use dbx_plugin_files.Scheduler.Awaited.{Explains, await_returns, await_flickers}
use dbx_plugin_files.Scheduler.Hydrated.{restamped, at_once, hydrate-settles}
use dbx_plugin_files.Scheduler.Tests.{nightly, moved, one_task, fires_soon, all_open, open_binding}

abbrev moment : Moment
moment = record { run_id = codes "r1"; now = 2000; writes = true }

abbrev started : World
started = hydrate fires_soon 2000 true (nightly ∷ []) []

abbrev claimed : World
claimed = (claim fires_soon (codes "t1") (codes "manual") true moment started).1

Reach-single_flight_example :
    flights (codes "t1") claimed.live
    ≡ (if holds (codes "t1") claimed.scheduler.running then 1 else 0)
Reach-single_flight_example =
    Reach-single_flight fires_soon all_open claimed (codes "t1")
      (next (start 2000 true (nightly ∷ []) []) (claims (codes "t1") (codes "manual") true moment))

abbrev waiting : World
waiting = record {
  scheduler = record {
    tasks = record nightly { next_run_at = some 1500 } ∷ [];
    running = codes "t9" ∷ [];
  };
  runs = [];
  live = [];
}

abbrev orphan : RunRecord
orphan = record {
  run_id = codes "r0";
  task_id = codes "t1";
  job_id = none;
  trigger = codes "manual";
  status = codes "running";
  started_at = some 1000;
  finished_at = none;
  bytes = 0;
  files = none;
  error = none;
}

hydrate-settles_example :
    (hydrate fires_soon 2000 true (map (restamped (λ task. some 1000)) (nightly ∷ [])) (orphan ∷ [])
      ≡ hydrate fires_soon 2000 true (nightly ∷ []) (orphan ∷ []))
    × (due_ids fires_soon 2000 []
          (hydrate fires_soon 2000 true (nightly ∷ []) (orphan ∷ [])).scheduler.tasks
        ≡ at_once fires_soon 2000 (nightly ∷ []))
    × (any_running (hydrate fires_soon 2000 true (nightly ∷ []) (orphan ∷ [])).runs ≡ false)
unfolding hydrate
hydrate-settles_example =
    hydrate-settles fires_soon 2000 (nightly ∷ []) (orphan ∷ []) (λ task. some 1000)

abbrev finished : JobView
finished = record { status = JobStatus.completed; error = none; transferred_bytes = 7 }

abbrev engine : Engine
engine = record {
  binding = λ id. ok open_binding;
  start = λ request. ok (codes "j1");
  await_job = λ job. record { status = JobStatus.completed; error = none; bytes = 7 };
  files_done = λ job. some 3;
  prune = λ target relative days. ok tt;
  refusal = λ fault. codes "refused";
}

drive_run-stamps_example :
    ((drive_run engine nightly orphan).1
      ≡ (text_eq (drive_run engine nightly orphan).0.status (codes "success") && stamps nightly))
    × (text_eq (drive_run engine nightly orphan).0.status (codes "running") ≡ false)
drive_run-stamps_example = drive_run-stamps engine nightly orphan

await_returns_example :
    (outcome : Outcome) × (await_job_terminal (λ poll. some finished) (λ poll. true) 1 0
      ≡ some outcome)
    × Explains (λ poll. some finished) (λ poll. true) outcome
await_returns_example =
    await_returns (λ poll. some finished) (λ poll. true) 0 (λ poll h. absurd (cc)) (λ poll h. refl)
      1 0 (omega arith) (omega arith)

abbrev flickering : ℕ → Option JobView
flickering poll = if poll % 2 == 0 then none else some finished

await_flickers_example : await_job_terminal flickering (λ poll. true) 100 (3 * 2) ≡ none
await_flickers_example =
    await_flickers flickering (λ poll. true) (λ half. ground arith) (λ half h. ground arith) 100 3

abbrev moved_task : ScheduleTask
unfolding updated trim trim_end_matches trim_start_matches is_whitespace
moved_task = updated fires_soon all_open moved 2000 nightly

update_resync_lost_example :
    (moved_task.bisync_resync_done ≡ false)
    × ((row : ScheduleTask) × (find_task
            (codes "t1")
            (stamp_resync (codes "t1") (record { tasks = moved_task ∷ []; running = [] })).tasks
          ≡ some row)
        × (row.target_path ≡ moved.target_path)
        × (job_request row ≡ JobRequest.bisync_job (to_bisync_request false row)))
unfolding update pair_changed text_eq find_task trim validate parse split_once parse_value set_bit
    check_read resolve sanitize from_parts check_write rewrite_task
update_resync_lost_example =
    update_resync_lost fires_soon all_open (codes "t1") moved 2000 one_task nightly moved_task
      (record { tasks = moved_task ∷ []; running = [] }) refl refl refl refl
