-- ===== src/Scheduler/Resync.antt =====
-- When a run stamps its pair as resynced (`drive_run` and `update` of backend/src/scheduler/mod.rs).
use dbx_plugin_files.Prelude.{
  ℕ, ◌≡◌, refl, ap, subst, inl, inr, true, false, ◌&&◌, List, [], ◌∷◌, Option, some, arith,
  Result-cases, Result, ok,
}
use dbx_plugin_files.Prelude.Text.{Text, codes, text_eq}
use dbx_plugin_files.Cron.Fields.{CronExpr}
use dbx_plugin_files.Store.Rings.{RunRecord}
use dbx_plugin_files.Scheduler.Model.{
  ScheduleKind, ScheduleTask, ScheduleRequest, ScheduleError, Scheduler, RemoteBinding,
}
use dbx_plugin_files.Scheduler.Tasks.{
  update, updated, rewrite_task, find_task, write_task, pair_changed, same_kind,
}
use dbx_plugin_files.Scheduler.Awaiting.{JobStatus, Outcome}
use dbx_plugin_files.Scheduler.Driving.{
  Engine, JobRequest, bound_pair, job_request, to_bisync_request, stamp_resync, stamps, settle,
  after_job, drive_run,
}

after_job_stamp :
    (engine : Engine) (task : ScheduleTask) (job_id : Text) (outcome : Outcome) (run : RunRecord)
    → let (done, stamp) = after_job engine task job_id outcome run in
      (stamp ≡ (text_eq done.status (codes "success") && stamps task))
      × (text_eq done.status (codes "running") ≡ false)
unfolding after_job settle text_eq
after_job_stamp engine task job_id outcome run = by_status outcome.status
  where
    by_status :
        (status : JobStatus)
        → let (done, stamp) =
            after_job engine task job_id (record outcome { status = status }) run in
          (stamp ≡ (text_eq done.status (codes "success") && stamps task))
          × (text_eq done.status (codes "running") ≡ false)
    by_status JobStatus.queued = (refl, refl)
    by_status JobStatus.running = (refl, refl)
    by_status JobStatus.completed = (refl, refl)
    by_status JobStatus.failed = (refl, refl)
    by_status JobStatus.canceled = (refl, refl)

-- A run that was driven is never left as running, and it stamps its task exactly when it succeeded
-- and the task is a two-way one that was not resynced at the claim.
pub drive_run-stamps :
    (engine : Engine) (task : ScheduleTask) (run : RunRecord)
    → ((drive_run engine task run).1
        ≡ (text_eq (drive_run engine task run).0.status (codes "success") && stamps task))
      × (text_eq (drive_run engine task run).0.status (codes "running") ≡ false)
unfolding drive_run settle text_eq
drive_run-stamps engine task run = elim (Result-cases (bound_pair engine task)) [
  | inl (fault, lost) ↦ rw (drive_run, lost) (refl, refl)
  | inr (u, bound) ↦ (elim (Result-cases (engine.start (job_request task))) [
    | inl (fault, refused) ↦ rw (drive_run, bound, refused) (refl, refl)
    | inr (job_id, started) ↦
        rw (drive_run, bound, started)
          (after_job_stamp engine task job_id (engine.await_job job_id)
            (record run { job_id = some job_id }))
  ])
]

-- The request of a pair that was stamped.
plain_request :
    (row : ScheduleTask)
    → row.kind ≡ ScheduleKind.bisync
    → row.bisync_resync_done ≡ true
    → job_request row ≡ JobRequest.bisync_job (to_bisync_request false row)
unfolding job_request same_kind
plain_request row two_way done = rw (job_request, two_way, done) refl

find_task-write_task_self :
    (id : Text) (f : ScheduleTask → ScheduleTask) (tasks : List ScheduleTask) (task : ScheduleTask)
    → ((row : ScheduleTask) → (f row).id ≡ row.id)
    → find_task id tasks ≡ some task
    → find_task id (write_task id f tasks) ≡ some (f task)
unfolding find_task write_task
find_task-write_task_self id f [] task keeps found = absurd (cc)
find_task-write_task_self id f (first ∷ tasks) task keeps found =
    ground (arith, find_task-write_task_self id f tasks task keeps, keeps first)

module _ (next_fire : CronExpr → ℕ → Option ℕ) (binding : Text → Option RemoteBinding) (id : Text)
    (request : ScheduleRequest) (now : ℕ) (scheduler : Scheduler) where
  update_rewrites :
      (answer : ScheduleTask) (after : Scheduler)
      → update next_fire binding id request now scheduler ≡ (ok answer, after)
      → rewrite_task id (updated next_fire binding request now) scheduler ≡ (ok answer, after)
  unfolding update
  update_rewrites answer after accepted = ground arith

  -- An accepted update that moves a two-way pair takes the stamp back; but when a first run of the
  -- old pair ends after it, its stamp marks the new pair, so the pair's first run goes out in plain
  -- mode and is never a resync.
  pub update_resync_lost :
      (task answer : ScheduleTask) (after : Scheduler)
      → find_task id scheduler.tasks ≡ some task
      → pair_changed request task ≡ true
      → request.kind ≡ ScheduleKind.bisync
      → update next_fire binding id request now scheduler ≡ (ok answer, after)
      → (answer.bisync_resync_done ≡ false)
        × ((row : ScheduleTask) × (find_task id (stamp_resync id after).tasks ≡ some row)
            × (row.target_path ≡ request.target_path)
            × (job_request row ≡ JobRequest.bisync_job (to_bisync_request false row)))
  unfolding updated rewrite_task stamp_resync job_request
  update_resync_lost task answer after found moved two_way accepted =
      let f = updated next_fire binding request now in
      let step : (row : ScheduleTask) → (f row).id ≡ row.id = λ row. refl in
      let done : ◌≡◌ {A = Result ScheduleError ScheduleTask × Scheduler}
          (ok (f task), record scheduler { tasks = write_task id f scheduler.tasks })
          (ok answer, after) =
        rw (rewrite_task, found) at (update_rewrites answer after accepted) in
      let written : record scheduler { tasks = write_task id f scheduler.tasks } ≡ after =
        ap (λ (r : Result ScheduleError ScheduleTask × Scheduler). r.1) done in
      let first : f task ≡ answer = cc in
      let mark = λ (task : ScheduleTask). record task { bisync_resync_done = true } in
      let row = record (f task) { bisync_resync_done = true } in
      (
        subst (λ (t : ScheduleTask). t.bisync_resync_done ≡ false) first (rw moved refl),
        (
          row,
          subst (λ (s : Scheduler). find_task id (write_task id mark s.tasks) ≡ some row) written
              (find_task-write_task_self id mark (write_task id f scheduler.tasks) (f task)
                (λ r. refl) (find_task-write_task_self id f scheduler.tasks task step found)),
          refl,
          plain_request row two_way refl,
        ),
      )
