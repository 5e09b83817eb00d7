-- ===== src/Scheduler/Flights.antt =====
-- Counting the live runs of a task (the single flight of backend/src/scheduler/mod.rs).
use dbx_plugin_files.Prelude.{
  ℕ, ◌+◌, ◌≡◌, ap, subst, inl, inr, false, not, ◌&&◌, List, [], ◌∷◌, ◌++◌, some, if◌then◌else◌,
  arith, Bool-cases,
}
use dbx_plugin_files.Prelude.Text.{Text, text_eq, text_eq_iff}
use dbx_plugin_files.Scheduler.Model.{ScheduleTask}
use dbx_plugin_files.Scheduler.Tasks.{find_task}
use dbx_plugin_files.Scheduler.Runs.{Flight, World, holds, remove}

-- The live runs of a task.
unfoldable pub flights : Text → List Flight → ℕ
flights id [] = 0
flights id (flight ∷ live) = (if text_eq flight.task.id id then 1 else 0) + flights id live

-- A task is marked exactly while one run of it is live, and no task has two.
abbrev pub IsSingleFlight : World → Type 0
IsSingleFlight world =
    (id : Text) → flights id world.live ≡ (if holds id world.scheduler.running then 1 else 0)

flights-append :
    (id : Text) (xs ys : List Flight) → flights id (xs ++ ys) ≡ flights id xs + flights id ys
unfolding flights
flights-append id [] ys = omega arith
flights-append id (x ∷ xs) ys = omega (arith, flights-append id xs ys)

flights_split :
    (id : Text) (xs ys : List Flight) (flight : Flight)
    → flights id (xs ++ (flight ∷ ys))
      ≡ (if text_eq flight.task.id id then 1 else 0) + flights id (xs ++ ys)
unfolding flights
flights_split id xs ys flight =
    omega (arith, flights-append id xs (flight ∷ ys), flights-append id xs ys)

holds-remove :
    (id gone : Text) (markers : List Text)
    → holds id (remove gone markers) ≡ (not (text_eq gone id) && holds id markers)
unfolding holds remove
holds-remove id gone [] = ground arith
holds-remove id gone (marker ∷ markers) = ground (
  arith,
  holds-remove id gone markers,
  text_eq_iff marker gone,
  text_eq_iff marker id,
  text_eq_iff gone id,
)

pub find_task_id :
    (id : Text) (tasks : List ScheduleTask) (task : ScheduleTask)
    → find_task id tasks ≡ some task
    → task.id ≡ id
unfolding find_task
find_task_id id [] task h = absurd (cc)
find_task_id id (other ∷ tasks) task h = elim (Bool-cases (text_eq other.id id)) [
  | inl same ↦
      let found : some other ≡ some task = rw same at h in
      let ids : other.id ≡ id = (text_eq_iff other.id id).0 same in
      let one : other ≡ task = cc in subst (λ t. t.id ≡ id) one ids
  | inr differs ↦ find_task_id id tasks task (rw differs at h)
]

-- One live run more, and its task marked.
pub flight_joins :
    (world : World) (flight : Flight)
    → IsSingleFlight world
    → holds flight.task.id world.scheduler.running ≡ false
    → (id : Text)
    → flights id (world.live ++ (flight ∷ []))
      ≡ (if holds id (flight.task.id ∷ world.scheduler.running) then 1 else 0)
unfolding flights holds
flight_joins world flight h free id =
    ground (arith, h id, flights-append id world.live (flight ∷ []), text_eq_iff flight.task.id id)

-- One live run less, and its task's marker removed.
pub flight_leaves :
    (world : World) (before after : List Flight) (flight : Flight)
    → IsSingleFlight world
    → world.live ≡ before ++ (flight ∷ after)
    → (id : Text)
    → flights id (before ++ after)
      ≡ (if holds id (remove flight.task.id world.scheduler.running) then 1 else 0)
flight_leaves world before after flight h split id =
    let counted = ap (flights id) split in
    ground (
      arith,
      h id,
      counted,
      flights_split id before after flight,
      holds-remove id flight.task.id world.scheduler.running,
    )
