-- ===== src/Scheduler/Names.antt =====
-- Task names and identifiers stay unique in backend/src/scheduler/mod.rs.
use dbx_plugin_files.Prelude.{
  ℕ, ◌≡◌, refl, subst, ◌∙◌, inl, inr, Bool, false, not, ◌&&◌, ◌||◌, List, [], ◌∷◌, ◌++◌, Option,
  none, some, any, arith, Bool-cases, Option-cases, Result-cases, ok, err,
}
use dbx_plugin_files.Prelude.Text.{Text, text_eq, text_eq_iff, trim}
use dbx_plugin_files.Cron.Fields.{CronExpr}
use dbx_plugin_files.Scheduler.Model.{
  ScheduleTask, ScheduleRequest, ScheduleError, Scheduler, RemoteBinding,
}
use dbx_plugin_files.Scheduler.Validate.{validate}
use dbx_plugin_files.Scheduler.Tasks.{
  create, created, update, updated, rewrite_task, find_task, write_task, fires,
}

abbrev pub has_name : Text → List ScheduleTask → Bool
has_name name = any (λ task. text_eq task.name name)

abbrev pub has_id : Text → List ScheduleTask → Bool
has_id id = any (λ task. text_eq task.id id)

-- No name and no identifier stands twice.
abbrev pub Unique : List ScheduleTask → Type 0
Unique [] = Unit
Unique (task ∷ tasks) =
    (has_name task.name tasks ≡ false) × ((has_id task.id tasks ≡ false) × Unique tasks)

-- The name is taken by a task with another identifier.
abbrev pub taken_by_other : Text → Text → List ScheduleTask → Bool
taken_by_other id name = any (λ task. not (text_eq task.id id) && text_eq task.name name)

has_name-append :
    (name : Text) (task : ScheduleTask) (tasks : List ScheduleTask)
    → has_name name (tasks ++ (task ∷ [])) ≡ (has_name name tasks || text_eq task.name name)
has_name-append name task [] = ground arith
has_name-append name task (other ∷ tasks) = ground (arith, has_name-append name task tasks)

has_id-append :
    (id : Text) (task : ScheduleTask) (tasks : List ScheduleTask)
    → has_id id (tasks ++ (task ∷ [])) ≡ (has_id id tasks || text_eq task.id id)
has_id-append id task [] = ground arith
has_id-append id task (other ∷ tasks) = ground (arith, has_id-append id task tasks)

append-Unique :
    (task : ScheduleTask) (tasks : List ScheduleTask)
    → has_name task.name tasks ≡ false
    → has_id task.id tasks ≡ false
    → Unique tasks
    → Unique (tasks ++ (task ∷ []))
append-Unique task [] n i h = (refl, (refl, tt))
append-Unique task (other ∷ tasks) n i h = (
  ground (
    arith,
    has_name-append other.name task tasks,
    h.0,
    text_eq_iff task.name other.name,
    text_eq_iff other.name task.name,
  ),
  (
    ground (
      arith,
      has_id-append other.id task tasks,
      h.1.0,
      text_eq_iff task.id other.id,
      text_eq_iff other.id task.id,
    ),
    append-Unique task tasks (ground arith) (ground arith) h.1.1,
  ),
)

-- Where no other task has the name and no task the identifier, no task has the name.
free_name :
    (id name : Text) (tasks : List ScheduleTask)
    → taken_by_other id name tasks ≡ false
    → has_id id tasks ≡ false
    → has_name name tasks ≡ false
free_name id name [] t i = refl
free_name id name (task ∷ tasks) t i = ground (arith, free_name id name tasks)

module _ (id name : Text) (f : ScheduleTask → ScheduleTask)
    (f_name : (task : ScheduleTask) → (f task).name ≡ name)
    (f_id : (task : ScheduleTask) → (f task).id ≡ task.id) where
  has_name-write_task :
      (other : Text) (tasks : List ScheduleTask)
      → has_name other tasks ≡ false
      → text_eq name other ≡ false
      → has_name other (write_task id f tasks) ≡ false
  unfolding write_task
  has_name-write_task other [] h ne = refl
  has_name-write_task other (task ∷ tasks) h ne =
      ground (arith, has_name-write_task other tasks, f_name task)

  has_id-write_task :
      (other : Text) (tasks : List ScheduleTask)
      → has_id other (write_task id f tasks) ≡ has_id other tasks
  unfolding write_task
  has_id-write_task other [] = refl
  has_id-write_task other (task ∷ tasks) = ground (arith, has_id-write_task other tasks, f_id task)

  write_task-Unique :
      (tasks : List ScheduleTask)
      → Unique tasks
      → taken_by_other id name tasks ≡ false
      → Unique (write_task id f tasks)
  unfolding write_task
  write_task-Unique [] h t = h
  write_task-Unique (task ∷ tasks) h t = elim (Bool-cases (text_eq task.id id)) [
    | inl same ↦
        let ids : task.id ≡ id = (text_eq_iff task.id id).0 same in
        let gone : has_id id tasks ≡ false = subst (λ i. has_id i tasks ≡ false) ids h.1.0 in
        rw same (
          rw (f_name task) (free_name id name tasks (ground arith) gone),
          (rw (f_id task) h.1.0, h.1.1),
        )
    | inr other ↦
        let apart : text_eq name task.name ≡ false =
          ground (arith, text_eq_iff name task.name, text_eq_iff task.name name) in
        rw other (
          has_name-write_task task.name tasks h.0 apart,
          (has_id-write_task task.id tasks ∙ h.1.0, write_task-Unique tasks h.1.1 (ground arith)),
        )
  ]

  rewrite_missing :
      (scheduler : Scheduler)
      → find_task id scheduler.tasks ≡ none
      → rewrite_task id f scheduler ≡ (err ScheduleError.not_found, scheduler)
  unfolding rewrite_task
  rewrite_missing scheduler missing = rw (rewrite_task, missing) refl

  rewrite_found :
      (scheduler : Scheduler) (task : ScheduleTask)
      → find_task id scheduler.tasks ≡ some task
      → rewrite_task id f scheduler
        ≡ (ok (f task), record scheduler { tasks = write_task id f scheduler.tasks })
  unfolding rewrite_task
  rewrite_found scheduler task found = rw (rewrite_task, found) refl

  rewrite_task-Unique :
      (scheduler : Scheduler)
      → Unique scheduler.tasks
      → taken_by_other id name scheduler.tasks ≡ false
      → Unique (rewrite_task id f scheduler).1.tasks
  rewrite_task-Unique scheduler h t = elim (Option-cases (find_task id scheduler.tasks)) [
    | inl missing ↦ rw (rewrite_missing scheduler missing) h
    | inr (task, found) ↦
        rw (rewrite_found scheduler task found) (write_task-Unique scheduler.tasks h t)
  ]

module _ (next_fire : CronExpr → ℕ → Option ℕ) (binding : Text → Option RemoteBinding) where
  create-Unique :
      (id : Text) (request : ScheduleRequest) (now : ℕ) (scheduler : Scheduler)
      → Unique scheduler.tasks
      → has_id id scheduler.tasks ≡ false
      → Unique (create next_fire binding id request now scheduler).1.tasks
  unfolding create created
  create-Unique id request now scheduler h fresh =
      elim (Bool-cases (text_eq (trim request.name) [])) [
        | inl blank ↦ rw blank h
        | inr named ↦
            (elim (Result-cases (validate (fires next_fire binding now) binding request)) [
              | inl (fault, refused) ↦ rw (named, refused) h
              | inr (u, accepted) ↦
                  (elim (Bool-cases (has_name (trim request.name) scheduler.tasks)) [
                    | inl taken ↦ rw (named, accepted, taken) h
                    | inr free ↦
                        rw (named, accepted, free)
                          (append-Unique (created next_fire binding id request now) scheduler.tasks
                            free fresh h)
                  ])
            ])
      ]

  updated_name :
      (request : ScheduleRequest) (now : ℕ) (task : ScheduleTask)
      → (updated next_fire binding request now task).name ≡ trim request.name
  unfolding updated
  updated_name request now task = refl

  updated_id :
      (request : ScheduleRequest) (now : ℕ) (task : ScheduleTask)
      → (updated next_fire binding request now task).id ≡ task.id
  unfolding updated
  updated_id request now task = refl

  update-Unique :
      (id : Text) (request : ScheduleRequest) (now : ℕ) (scheduler : Scheduler)
      → Unique scheduler.tasks
      → Unique (update next_fire binding id request now scheduler).1.tasks
  unfolding update
  update-Unique id request now scheduler h = elim (Bool-cases (text_eq (trim request.name) [])) [
    | inl blank ↦ rw blank h
    | inr named ↦ (elim (Result-cases (validate (fires next_fire binding now) binding request)) [
      | inl (fault, refused) ↦ rw (named, refused) h
      | inr (u, accepted) ↦
          (elim (Bool-cases (taken_by_other id (trim request.name) scheduler.tasks)) [
            | inl taken ↦ rw (named, accepted, taken) h
            | inr free ↦
                rw (named, accepted, free)
                  (rewrite_task-Unique id (trim request.name)
                    (updated next_fire binding request now) (updated_name request now)
                    (updated_id request now) scheduler h free)
          ])
    ])
  ]

  -- Creating a task under a fresh identifier and updating any task, whether they succeed or are
  -- refused, keep the names and the identifiers of the tasks unique.
  pub create-update-Unique :
      (fresh id : Text) (request : ScheduleRequest) (now : ℕ) (scheduler : Scheduler)
      → Unique scheduler.tasks
      → has_id fresh scheduler.tasks ≡ false
      → Unique (create next_fire binding fresh request now scheduler).1.tasks
        × Unique (update next_fire binding id request now scheduler).1.tasks
  create-update-Unique fresh id request now scheduler h new =
      (create-Unique fresh request now scheduler h new, update-Unique id request now scheduler h)
