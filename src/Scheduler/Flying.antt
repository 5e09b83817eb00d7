-- ===== src/Scheduler/Flying.antt =====
-- Each task has one live run at most (the single flight of backend/src/scheduler/mod.rs).
use dbx_plugin_files.Prelude.{
  ℕ, ◌≡◌, refl, ap, inl, inr, Bool, false, not, ◌&&◌, List, [], ◌∷◌, ◌++◌, Option, if◌then◌else◌,
  arith, Bool-cases, Option-cases, Result, ok, err,
}
use dbx_plugin_files.Prelude.Text.{Text}
use dbx_plugin_files.Cron.Fields.{CronExpr}
use dbx_plugin_files.Scheduler.Model.{ScheduleTask, ScheduleRequest, RemoteBinding, Scheduler}
use dbx_plugin_files.Scheduler.Tasks.{
  create, update, updated, delete, rewrite_task, find_task, write_task,
}
use dbx_plugin_files.Scheduler.Runs.{
  Moment, World, ClaimError, holds, release, store_run, drop_run, finish_run, claim, claimed_run,
  claim_locked, claim_all, process_due, due_ids, schedule_trigger, advance,
}
use dbx_plugin_files.Scheduler.Driving.{stamp_resync}
use dbx_plugin_files.Scheduler.History.{hydrate}
use dbx_plugin_files.Scheduler.Steps.{
  Step, Reach, start, next, creates, updates, deletes, claims, ticks, records, stamps_pair, drops,
  finishes,
}
use dbx_plugin_files.Scheduler.Flights.{
  flights, IsSingleFlight, flight_joins, flight_leaves, find_task_id,
}

rewrite_task_running :
    (id : Text) (f : ScheduleTask → ScheduleTask) (scheduler : Scheduler)
    → (rewrite_task id f scheduler).1.running ≡ scheduler.running
unfolding rewrite_task
rewrite_task_running id f scheduler = elim (Option-cases (find_task id scheduler.tasks)) [
  | inl missing ↦ rw (rewrite_task, missing) refl
  | inr (task, found) ↦ rw (rewrite_task, found) refl
]

module _ (next_fire : CronExpr → ℕ → Option ℕ) (binding : Text → Option RemoteBinding) where
  create_running :
      (id : Text) (request : ScheduleRequest) (now : ℕ) (scheduler : Scheduler)
      → (create next_fire binding id request now scheduler).1.running ≡ scheduler.running
  unfolding create
  create_running id request now scheduler = ground arith

  update_running :
      (id : Text) (request : ScheduleRequest) (now : ℕ) (scheduler : Scheduler)
      → (update next_fire binding id request now scheduler).1.running ≡ scheduler.running
  unfolding update
  update_running id request now scheduler =
      ground (arith, rewrite_task_running id (updated next_fire binding request now) scheduler)

-- A claim of any trigger.
module _ (next_fire : CronExpr → ℕ → Option ℕ) where
  pub advance_id :
      (trigger : Text) (now : ℕ) (task : ScheduleTask)
      → (advance next_fire trigger now task).id ≡ task.id
  unfolding advance
  advance_id trigger now task = ground arith

  claim_refused :
      (id trigger : Text) (force : Bool) (moment : Moment) (world : World) (fault : ClaimError)
      → claim_locked next_fire id trigger force moment.now world.scheduler
        ≡ (err fault, world.scheduler)
      → claim next_fire id trigger force moment world ≡ (err fault, world)
  unfolding claim
  claim_refused id trigger force moment world fault e = rw (claim, e) refl

  pub claim_granted :
      (id trigger : Text) (force : Bool) (moment : Moment) (world : World) (task : ScheduleTask)
      (scheduler : Scheduler)
      → claim_locked next_fire id trigger force moment.now world.scheduler ≡ (ok task, scheduler)
      → (claim next_fire id trigger force moment world).1
        ≡ record (store_run moment.writes
            (claimed_run trigger moment task)
            (record world { scheduler = scheduler })) {
              live =
                  world.live
                  ++ (record { task = task; run = claimed_run trigger moment task } ∷ []);
            }
  unfolding claim
  claim_granted id trigger force moment world task scheduler e =
      rw (claim, e) (rw (ap (λ (r : Result ClaimError ScheduleTask × Scheduler). r.1) e) refl)

  granted-IsSingleFlight :
      (trigger : Text) (moment : Moment) (world : World) (task : ScheduleTask)
      (tasks : List ScheduleTask)
      → holds task.id world.scheduler.running ≡ false
      → IsSingleFlight world
      → IsSingleFlight
          (record (store_run moment.writes (claimed_run trigger moment task) (record world {
            scheduler = record { tasks = tasks; running = task.id ∷ world.scheduler.running };
          })) {
            live =
                world.live ++ (record { task = task; run = claimed_run trigger moment task } ∷ []);
          })
  unfolding store_run
  granted-IsSingleFlight trigger moment world task tasks free h =
      flight_joins world (record { task = task; run = claimed_run trigger moment task }) h free

  claim-IsSingleFlight :
      (id trigger : Text) (force : Bool) (moment : Moment) (world : World)
      → IsSingleFlight world
      → IsSingleFlight (claim next_fire id trigger force moment world).1
  unfolding claim_locked
  claim-IsSingleFlight id trigger force moment world h =
      let scheduler = world.scheduler in
      elim (Option-cases (find_task id scheduler.tasks)) [
        | inl missing ↦
            rw
              (claim_refused id trigger force moment world ClaimError.not_found
                (rw (claim_locked, missing) refl))
              h
        | inr (task, found) ↦ (elim (Bool-cases (holds id scheduler.running)) [
          | inl busy ↦
              rw
                (claim_refused id trigger force moment world ClaimError.already_running
                  (rw (claim_locked, found, busy) refl))
                h
          | inr free ↦ (elim (Bool-cases (not task.enabled && not force)) [
            | inl off ↦
                rw
                  (claim_refused id trigger force moment world ClaimError.disabled
                    (rw (claim_locked, found, free, off) refl))
                  h
            | inr on ↦
                let advanced = advance next_fire trigger moment.now task in
                let tasks = write_task id (advance next_fire trigger moment.now) scheduler.tasks in
                let same : advanced.id ≡ task.id = advance_id trigger moment.now task in
                rw
                  (claim_granted id trigger force moment world advanced
                    (record { tasks = tasks; running = advanced.id ∷ scheduler.running })
                    (rw (claim_locked, found, free, on, same) refl))
                  (granted-IsSingleFlight trigger moment world advanced tasks
                    (rw (same, find_task_id id scheduler.tasks task found) free) h)
          ])
        ])
      ]

  claim_all-IsSingleFlight :
      (moment : Text → Moment) (ids : List Text) (world : World)
      → IsSingleFlight world
      → IsSingleFlight (claim_all next_fire moment ids world)
  unfolding claim_all
  claim_all-IsSingleFlight moment [] world h = h
  claim_all-IsSingleFlight moment (id ∷ ids) world h =
      claim_all-IsSingleFlight moment ids
        (claim next_fire id schedule_trigger false (moment id) world).1
        (claim-IsSingleFlight id schedule_trigger false (moment id) world h)

module _ (next_fire : CronExpr → ℕ → Option ℕ) (binding : Text → Option RemoteBinding) where
  Step-IsSingleFlight :
      {world world' : World}
      → Step next_fire binding world world'
      → IsSingleFlight world
      → IsSingleFlight world'
  unfolding delete store_run drop_run finish_run process_due stamp_resync release
  Step-IsSingleFlight {world} (creates id request now) h =
      λ i. rw (create_running next_fire binding id request now world.scheduler) (h i)
  Step-IsSingleFlight {world} (updates id request now) h =
      λ i. rw (update_running next_fire binding id request now world.scheduler) (h i)
  Step-IsSingleFlight (deletes id) h = h
  Step-IsSingleFlight {world} (claims id trigger force moment) h =
      claim-IsSingleFlight next_fire id trigger force moment world h
  Step-IsSingleFlight {world} (ticks now moment) h =
      claim_all-IsSingleFlight next_fire moment
        (due_ids next_fire now world.scheduler.running world.scheduler.tasks) world h
  Step-IsSingleFlight (records writes run) h = h
  Step-IsSingleFlight (stamps_pair id) h = h
  Step-IsSingleFlight {world} (drops before after flight moment split) h =
      flight_leaves world before after flight h split
  Step-IsSingleFlight {world} (finishes before after flight run moment split) h =
      flight_leaves world before after flight h split

  Reach-all : (world : World) → Reach next_fire binding world → IsSingleFlight world
  unfolding hydrate flights holds
  Reach-all _ (start now writes schedules runs) = λ id. refl
  Reach-all _ (next reached step) = Step-IsSingleFlight step (Reach-all _ reached)

  -- In every reachable world each task has at most one live run, and it has one exactly while its
  -- marker is set, whatever the interleaving of requests, ticks, claims and the ends of runs.
  pub Reach-single_flight :
      (world : World) (id : Text)
      → Reach next_fire binding world
      → flights id world.live ≡ (if holds id world.scheduler.running then 1 else 0)
  Reach-single_flight world id reached = Reach-all world reached id
