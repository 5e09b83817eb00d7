-- ===== src/Scheduler/Awaited.antt =====
-- The poll loop of backend/src/scheduler/mod.rs ends, but for a job that keeps vanishing.
use dbx_plugin_files.Prelude.{
  ℕ, zero, suc, ◌+◌, ◌*◌, ◌≤◌, ◌<◌, ◌≡◌, ◌≢◌, ◌⊎◌, refl, subst, inl, inr, Bool, true, Option, none,
  some, arith, Bool-cases, Option-cases,
}
use dbx_plugin_files.Scheduler.Awaiting.{
  JobView, Outcome, is_terminal, too_long, vanished, await_job_terminal,
}

-- Where an outcome comes from.
abbrev pub Explains : (ℕ → Option JobView) → (ℕ → Bool) → Outcome → Type 0
Explains view expired outcome =
    ((poll : ℕ) × (job : JobView) × (view poll ≡ some job)
      × (is_terminal job.status ≡ true)
      × (outcome
          ≡ record { status = job.status; error = job.error; bytes = job.transferred_bytes }))
    ⊎ ((poll : ℕ) × (outcome ≡ too_long) × (expired poll ≡ true))
    ⊎ ((poll : ℕ) × (outcome ≡ vanished) × (view poll ≡ none) × (view (poll + 1) ≡ none))

module _ (view : ℕ → Option JobView) (expired : ℕ → Bool) where
  -- A job that is gone at one poll is gone at the next.
  abbrev StaysGone : Type 0
  StaysGone = (poll : ℕ) → view poll ≡ none → view (poll + 1) ≡ none

  -- Where a job that is gone at a poll stays gone at the next, and the deadline has passed at every poll
  -- from `late` on, the loop that starts at some poll ends within as many rounds as lead past `late`, one
  -- at least, and its outcome is a terminal job that some poll saw, a passed deadline, or a job that two
  -- polls in a row did not find.
  pub await_returns :
      (late : ℕ)
      → ((poll : ℕ) → view poll ≡ none → view (poll + 1) ≡ none)
      → ((poll : ℕ) → late ≤ poll → expired poll ≡ true)
      → (fuel poll : ℕ) → late < fuel + poll
      → 0 < fuel
      → (outcome : Outcome) × (await_job_terminal view expired fuel poll ≡ some outcome)
        × Explains view expired outcome
  unfolding await_job_terminal
  await_returns late gone passed zero poll enough some_fuel = absurd (omega arith)
  await_returns late gone passed (suc fuel) poll enough some_fuel =
      elim (Option-cases (view poll)) [
        | inl lost ↦ (
          vanished,
          rw (await_job_terminal, lost, gone poll lost) refl,
          inr (inr (poll, refl, lost, gone poll lost)),
        )
        | inr (job, seen) ↦ (elim (Bool-cases (is_terminal job.status)) [
          | inl done ↦ (
            record { status = job.status; error = job.error; bytes = job.transferred_bytes },
            rw (await_job_terminal, seen, done) refl,
            inl (poll, job, seen, done, refl),
          )
          | inr live ↦ (elim (Bool-cases (expired poll)) [
            | inl over ↦ (
              too_long,
              rw (await_job_terminal, seen, live, over) refl,
              inr (inl (poll, refl, over)),
            )
            | inr early ↦
                rw (await_job_terminal, seen, live, early)
                  (await_returns late gone passed fuel (poll + 1) (omega arith)
                    (ground (arith, passed poll)))
          ])
        ])
      ]

  -- A job that is missing at every other poll is waited for without end, whatever the deadline.
  pub await_flickers :
      ((half : ℕ) → view (half * 2) ≡ none)
      → ((half : ℕ) → view (half * 2 + 1) ≢ none)
      → (fuel half : ℕ) → await_job_terminal view expired fuel (half * 2) ≡ none
  unfolding await_job_terminal
  await_flickers gone back zero half = refl
  await_flickers gone back (suc fuel) half = elim (Option-cases (view (half * 2 + 1))) [
    | inl lost ↦ absurd (back half lost)
    | inr (job, seen) ↦
        rw (await_job_terminal, gone half, seen)
          (subst (λ poll. await_job_terminal view expired fuel poll ≡ none)
            (let e : (half + 1) * 2 ≡ half * 2 + 2 = omega arith in e)
            (await_flickers gone back fuel (half + 1)))
  ]
