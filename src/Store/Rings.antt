-- ===== src/Store/Rings.antt =====
-- The transfer and run histories of backend/src/store.rs: bounded lists, the newest record last.
-- The file is its list of records, and `writes` is whether `write_json_atomic` succeeds: one that
-- fails leaves the file as it was.
use dbx_plugin_files.Prelude.{
  ℕ, ◌-◌, Bool, true, false, not, List, [], ◌∷◌, ◌++◌, Option, none, some, length, drop, ltb, ◌==◌,
  if◌then◌else◌, Result, ok, err,
}
use dbx_plugin_files.Prelude.Text.{Text, text_eq}

abbrev pub transfer_history_limit : ℕ
transfer_history_limit = 200

abbrev pub schedule_run_history_limit : ℕ
schedule_run_history_limit = 500

pub data StoreError : Type 0 where
  write_failed : StoreError

pub record TransferRecord : Type 0 where
  pub task_id : Text
  pub connection_id : Text
  pub kind : Text
  pub remote_path : Text
  pub total_bytes : Option ℕ
  pub transferred_bytes : ℕ
  pub status : Text
  pub error : Option Text
  pub started_at : Option ℕ
  pub finished_at : Option ℕ
  pub local_path : Option Text

pub record RunRecord : Type 0 where
  pub run_id : Text
  pub task_id : Text
  pub job_id : Option Text
  pub trigger : Text
  pub status : Text
  pub started_at : Option ℕ
  pub finished_at : Option ℕ
  pub bytes : ℕ
  pub files : Option ℕ
  pub error : Option Text

-- `write_json_atomic` of a new list over the old one.
unfoldable pub stored : {A B : Type 0} → Bool → B → List A → List A → Result StoreError B × List A
stored true answer next old = (ok answer, next)
stored false answer next old = (err StoreError.write_failed, old)

-- `records.drain(..len - limit)` where there are more than the limit.
unfoldable pub drain_oldest : {A : Type 0} → ℕ → List A → List A
drain_oldest limit records =
    if ltb limit (length records) then drop (length records - limit) records else records

unfoldable pub record_transfer :
    Bool → TransferRecord → List TransferRecord → Result StoreError (Unit {0}) × List TransferRecord
record_transfer writes entry records =
    stored writes tt (drain_oldest transfer_history_limit (records ++ (entry ∷ []))) records

unfoldable pub keep_records : (TransferRecord → Bool) → List TransferRecord → List TransferRecord
keep_records test [] = []
keep_records test (entry ∷ records) =
    let rest = keep_records test records in if test entry then entry ∷ rest else rest

unfoldable pub outside_connection : Option Text → TransferRecord → Bool
outside_connection none entry = false
outside_connection (some id) entry = not (text_eq entry.connection_id id)

unfoldable pub clear_transfers :
    Bool → Option Text → List TransferRecord → Result StoreError ℕ × List TransferRecord
unfolding outside_connection keep_records
clear_transfers writes connection_id records =
    let kept = keep_records (outside_connection connection_id) records in
    stored writes (length records - length kept) kept records

unfoldable pub delete_transfer :
    Bool → Text → List TransferRecord → Result StoreError Bool × List TransferRecord
unfolding keep_records
delete_transfer writes task_id records =
    let kept = keep_records (λ entry. not (text_eq entry.task_id task_id)) records in
    if length records - length kept == 0
    then (ok false, records)
    else stored writes true kept records

-- The first run with the record's id is replaced in place; otherwise the record goes to the end.
unfoldable pub put_run : RunRecord → List RunRecord → List RunRecord
put_run entry [] = entry ∷ []
put_run entry (run ∷ runs) =
    let rest = put_run entry runs in
    if text_eq run.run_id entry.run_id then entry ∷ runs else run ∷ rest

unfoldable pub record_run :
    Bool → RunRecord → List RunRecord → Result StoreError (Unit {0}) × List RunRecord
record_run writes entry runs =
    stored writes tt (drain_oldest schedule_run_history_limit (put_run entry runs)) runs
