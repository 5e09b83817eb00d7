-- ===== src/Scheduler/Steps.antt =====
-- The scheduler as a transition system (backend/src/scheduler/mod.rs): the requests, the ticks and the
-- runs interleave in any order, one atomic section at a time.
use dbx_plugin_files.Prelude.{ℕ, ◌≡◌, Bool, List, ◌∷◌, ◌++◌, Option}
use dbx_plugin_files.Prelude.Text.{Text}
use dbx_plugin_files.Cron.Fields.{CronExpr}
use dbx_plugin_files.Store.Rings.{RunRecord}
use dbx_plugin_files.Scheduler.Model.{ScheduleTask, ScheduleRequest, RemoteBinding}
use dbx_plugin_files.Scheduler.Tasks.{create, update, delete}
use dbx_plugin_files.Scheduler.Runs.{
  Flight, Moment, World, claim, drop_run, finish_run, process_due, store_run,
}
use dbx_plugin_files.Scheduler.Driving.{stamp_resync}
use dbx_plugin_files.Scheduler.History.{hydrate}

module _ (next_fire : CronExpr → ℕ → Option ℕ) (binding : Text → Option RemoteBinding) where
  pub data Step (world : World) : World → Type 0 where
    -- The requests of the host.
    creates :
        (id : Text) (request : ScheduleRequest) (now : ℕ)
        → Step world (record world {
          scheduler = (create next_fire binding id request now world.scheduler).1;
        })
    updates :
        (id : Text) (request : ScheduleRequest) (now : ℕ)
        → Step world (record world {
          scheduler = (update next_fire binding id request now world.scheduler).1;
        })
    deletes : (id : Text) → Step world (record world { scheduler = (delete id world.scheduler).1 })
    -- A claim of any trigger, granted or refused; a tick is a sequence of them.
    claims :
        (id trigger : Text) (force : Bool) (moment : Moment)
        → Step world (claim next_fire id trigger force moment world).1
    ticks : (now : ℕ) (moment : Text → Moment) → Step world (process_due next_fire now moment world)
    -- A live run records its job, stamps its pair, or writes any record on the way.
    records : (writes : Bool) (run : RunRecord) → Step world (store_run writes run world)
    stamps_pair :
        (id : Text) → Step world (record world { scheduler = stamp_resync id world.scheduler })
    -- A live run ends: without a runtime right after its claim, else at the end of `execute_run`.
    drops :
        (before after : List Flight) (flight : Flight) (moment : Moment)
        → world.live ≡ before ++ (flight ∷ after)
        → Step world (record (drop_run moment flight world) { live = before ++ after })
    finishes :
        (before after : List Flight) (flight : Flight) (run : RunRecord) (moment : Moment)
        → world.live ≡ before ++ (flight ∷ after)
        → Step world (record (finish_run moment flight.task run world) { live = before ++ after })

  pub data Reach : World → Type 0 where
    -- The sidecar's start.
    start :
        (now : ℕ) (writes : Bool) (schedules : List ScheduleTask) (runs : List RunRecord)
        → Reach (hydrate next_fire now writes schedules runs)
    next : {world world' : World} → Reach world → Step world world' → Reach world'
