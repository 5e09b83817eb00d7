-- ===== src/Scheduler/Due.antt =====
-- Which tasks a tick claims (`process_due` of backend/src/scheduler/mod.rs).
use dbx_plugin_files.Prelude.{
  ℕ, ◌≡◌, refl, inl, inr, true, false, List, [], ◌∷◌, Option, some, arith, All, Bool-cases,
}
use dbx_plugin_files.Prelude.Text.{Text, text_eq, text_eq_iff}
use dbx_plugin_files.Cron.Fields.{CronExpr}
use dbx_plugin_files.Scheduler.Model.{ScheduleTask, Scheduler}
use dbx_plugin_files.Scheduler.Tasks.{find_task, write_task}
use dbx_plugin_files.Scheduler.Names.{Unique, has_id}
use dbx_plugin_files.Scheduler.Runs.{holds, due_ids, is_due}

-- A task that a scheduled claim is granted.
abbrev pub Claimable : Scheduler → Text → Type 0
Claimable scheduler id =
    (task : ScheduleTask) × (find_task id scheduler.tasks ≡ some task)
    × (task.enabled ≡ true)
    × (holds id scheduler.running ≡ false)

abbrev pub NoRepeat : List Text → Type 0
NoRepeat [] = Unit
NoRepeat (id ∷ ids) = All (λ other. text_eq id other ≡ false) ids × NoRepeat ids

pub All-map {ℓ κ} :
    {P : Text → Type ℓ} {Q : Text → Type κ} (f : (id : Text) → P id → Q id) (ids : List Text)
    → All P ids
    → All Q ids
All-map f [] h = tt
All-map f (id ∷ ids) h = (f id h.0, All-map f ids h.1)

pub find_task-write_task :
    (id other : Text) (f : ScheduleTask → ScheduleTask) (tasks : List ScheduleTask)
    → ((task : ScheduleTask) → (f task).id ≡ task.id)
    → text_eq id other ≡ false
    → find_task other (write_task id f tasks) ≡ find_task other tasks
unfolding find_task write_task
find_task-write_task id other f [] keeps differs = refl
find_task-write_task id other f (task ∷ tasks) keeps differs = ground (
  arith,
  find_task-write_task id other f tasks keeps,
  keeps task,
  text_eq_iff task.id id,
  text_eq_iff task.id other,
  text_eq_iff id other,
)

has_id_of_find :
    (id : Text) (tasks : List ScheduleTask) (task : ScheduleTask)
    → find_task id tasks ≡ some task
    → has_id id tasks ≡ true
unfolding find_task
has_id_of_find id [] task h = absurd (cc)
has_id_of_find id (other ∷ tasks) task h = ground (arith, has_id_of_find id tasks task)

apart_of_find :
    (first : ScheduleTask) (id : Text) (tasks : List ScheduleTask) (task : ScheduleTask)
    → has_id first.id tasks ≡ false
    → find_task id tasks ≡ some task
    → text_eq first.id id ≡ false
apart_of_find first id tasks task fresh found =
    ground (arith, has_id_of_find id tasks task, text_eq_iff first.id id)

lift_Claimable :
    (first : ScheduleTask) (scheduler : Scheduler)
    → has_id first.id scheduler.tasks ≡ false
    → (id : Text) → Claimable scheduler id
    → Claimable (record scheduler { tasks = first ∷ scheduler.tasks }) id
unfolding find_task
lift_Claimable first scheduler fresh id (task, found, on, free) =
    (task, rw (apart_of_find first id scheduler.tasks task fresh found) found, on, free)

module _ (next_fire : CronExpr → ℕ → Option ℕ) (now : ℕ) (running : List Text) where
  due_first :
      (task : ScheduleTask) (tasks : List ScheduleTask)
      → is_due next_fire now running task ≡ true
      → Claimable (record { tasks = task ∷ tasks; running = running }) task.id
  unfolding is_due find_task
  due_first task tasks due =
      (task, ground (arith, text_eq_iff task.id task.id), ground arith, ground arith)

  due_apart :
      (first : ScheduleTask) (tasks : List ScheduleTask)
      → has_id first.id tasks ≡ false
      → (id : Text) → Claimable (record { tasks = tasks; running = running }) id
      → text_eq first.id id ≡ false
  due_apart first tasks fresh id (task, found, on, free) =
      apart_of_find first id tasks task fresh found

  pub due_ids-Claimable :
      (tasks : List ScheduleTask)
      → Unique tasks
      → All
          (Claimable (record { tasks = tasks; running = running }))
          (due_ids next_fire now running tasks)
        × NoRepeat (due_ids next_fire now running tasks)
  unfolding due_ids
  due_ids-Claimable [] h = (tt, tt)
  due_ids-Claimable (task ∷ tasks) h =
      let (granted, once) = due_ids-Claimable tasks h.1.1 in
      let lifted =
        All-map (lift_Claimable task (record { tasks = tasks; running = running }) h.1.0)
          (due_ids next_fire now running tasks) granted in
      elim (Bool-cases (is_due next_fire now running task)) [
        | inr idle ↦ rw idle (lifted, once)
        | inl due ↦ rw due (
          (due_first task tasks due, lifted),
          (
            All-map (due_apart task tasks h.1.0) (due_ids next_fire now running tasks) granted,
            once,
          ),
        )
      ]
