-- ===== src/Store/Runs.antt =====
-- The run history of backend/src/store.rs has one record for each run, the latest, and stays bounded.
use dbx_plugin_files.Prelude.{
  ℕ, zero, suc, ◌-◌, ◌≤◌, ◌≡◌, ◌⊎◌, refl, ap, subst, ◌∙◌, inl, inr, Bool, true, false, List, [],
  ◌∷◌, ◌++◌, Option, none, some, arith, length, drop, if◌then◌else◌, Bool-cases, Option-cases,
  length-append, length-drop, err,
}
use dbx_plugin_files.Prelude.Text.{Text, text_eq, text_eq_iff, text_eq_refl}
use dbx_plugin_files.Store.Rings.{RunRecord, StoreError, stored, drain_oldest, put_run, record_run}
use dbx_plugin_files.Store.Suffix.{drain_oldest-drop}

-- The first run with the identifier.
unfoldable pub find_run : Text → List RunRecord → Option RunRecord
find_run id [] = none
find_run id (run ∷ runs) = if text_eq run.run_id id then some run else find_run id runs

-- No identifier stands twice, and there are at most 500 runs.
abbrev pub OncePerRun : List RunRecord → Type 0
OncePerRun [] = Unit
OncePerRun (run ∷ runs) = (find_run run.run_id runs ≡ none) × OncePerRun runs

pub record IsHistory (runs : List RunRecord) : Type 0 where
  pub once : OncePerRun runs
  pub bounded : length runs ≤ 500

find_run-put_run :
    (id : Text) (entry : RunRecord) (runs : List RunRecord)
    → find_run id (put_run entry runs)
      ≡ (if text_eq entry.run_id id then some entry else find_run id runs)
unfolding find_run put_run
find_run-put_run id entry [] = refl
find_run-put_run id entry (run ∷ runs) = ground (
  arith,
  find_run-put_run id entry runs,
  text_eq_iff run.run_id entry.run_id,
  text_eq_iff run.run_id id,
  text_eq_iff entry.run_id id,
)

put_run-OncePerRun :
    (entry : RunRecord) (runs : List RunRecord) → OncePerRun runs → OncePerRun (put_run entry runs)
unfolding put_run find_run
put_run-OncePerRun entry [] h = (refl, tt)
put_run-OncePerRun entry (run ∷ runs) h = elim (Bool-cases (text_eq run.run_id entry.run_id)) [
  | inl same ↦
      let ids : run.run_id ≡ entry.run_id = (text_eq_iff run.run_id entry.run_id).0 same in
      rw same (subst (λ id. find_run id runs ≡ none) ids h.0, h.1)
  | inr other ↦ rw other (
    ground (
      arith,
      find_run-put_run run.run_id entry runs,
      h.0,
      text_eq_iff entry.run_id run.run_id,
      text_eq_iff run.run_id entry.run_id,
    ),
    put_run-OncePerRun entry runs h.1,
  )
]

-- A known run leaves the length as it is, and a new one goes to the end.
put_run_known :
    (entry old : RunRecord) (runs : List RunRecord)
    → find_run entry.run_id runs ≡ some old
    → length (put_run entry runs) ≡ length runs
unfolding find_run put_run
put_run_known entry old [] h = absurd (cc)
put_run_known entry old (run ∷ runs) h = ground (arith, put_run_known entry old runs)

put_run_new :
    (entry : RunRecord) (runs : List RunRecord)
    → find_run entry.run_id runs ≡ none
    → put_run entry runs ≡ runs ++ (entry ∷ [])
unfolding find_run put_run
put_run_new entry [] h = refl
put_run_new entry (run ∷ runs) h = elim (Bool-cases (text_eq run.run_id entry.run_id)) [
  | inl same ↦ absurd (ground arith)
  | inr other ↦ rw other (ap (◌∷◌ run) (put_run_new entry runs (ground arith)))
]

drop-OncePerRun : (n : ℕ) (runs : List RunRecord) → OncePerRun runs → OncePerRun (drop n runs)
drop-OncePerRun zero runs h = h
drop-OncePerRun (suc n) [] h = tt
drop-OncePerRun (suc n) (run ∷ runs) h = drop-OncePerRun n runs h.1

-- What is at the end is found behind any part that lacks it.
find_run_last :
    (n : ℕ) (entry : RunRecord) (runs : List RunRecord)
    → n ≤ length runs
    → find_run entry.run_id runs ≡ none
    → find_run entry.run_id (drop n (runs ++ (entry ∷ []))) ≡ some entry
unfolding find_run
find_run_last zero entry [] le h = rw (text_eq_refl entry.run_id) refl
find_run_last zero entry (run ∷ runs) le h =
    ground (arith, find_run_last zero entry runs (omega arith))
find_run_last (suc n) entry [] le h = absurd (omega (arith, le))
find_run_last (suc n) entry (run ∷ runs) le h =
    find_run_last n entry runs (omega (arith, le)) (ground arith)

drained-IsHistory : (runs : List RunRecord) → OncePerRun runs → IsHistory (drain_oldest 500 runs)
drained-IsHistory runs h = rw (drain_oldest-drop 500 runs) (record {
  once = drop-OncePerRun (length runs - 500) runs h;
  bounded = omega (arith, length-drop (length runs - 500) runs);
})

drained-find :
    (entry : RunRecord) (runs : List RunRecord)
    → length runs ≤ 500
    → find_run entry.run_id (drain_oldest 500 (put_run entry runs)) ≡ some entry
drained-find entry runs fits = elim (Option-cases (find_run entry.run_id runs)) [
  | inr (old, known) ↦
      let nothing : length (put_run entry runs) - 500 ≡ 0 =
        omega (arith, fits, put_run_known entry old runs known) in
      rw (drain_oldest-drop 500 (put_run entry runs), nothing)
        (find_run-put_run entry.run_id entry runs ∙ rw (text_eq_refl entry.run_id) refl)
  | inl new ↦
      rw (put_run_new entry runs new, drain_oldest-drop 500 (runs ++ (entry ∷ [])))
        (find_run_last (length (runs ++ (entry ∷ [])) - 500) entry runs
          (omega (arith, fits, length-append runs (entry ∷ []))) new)
]

-- Recording a run keeps one record for each run and at most 500 of them, whether the write works or
-- fails; when it works, what the history then has for the run is the new record.
pub record_run-IsHistory :
    (writes : Bool) (entry : RunRecord) (runs : List RunRecord)
    → IsHistory runs
    → IsHistory (record_run writes entry runs).1
      × (((record_run writes entry runs).0 ≡ err StoreError.write_failed)
          ⊎ (find_run entry.run_id (record_run writes entry runs).1 ≡ some entry))
unfolding record_run stored
record_run-IsHistory false entry runs h = (h, inl refl)
record_run-IsHistory true entry runs h = (
  drained-IsHistory (put_run entry runs) (put_run-OncePerRun entry runs h.once),
  inr (drained-find entry runs h.bounded),
)
