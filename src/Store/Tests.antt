-- ===== src/Store/Tests.antt =====
-- Tests of the model of backend/src/store.rs, and the theorems at concrete inputs.
use dbx_plugin_files.Prelude.{
  ◌≡◌, ◌⊎◌, refl, List, [], ◌∷◌, true, false, arith, none, some, ok, err,
}
use dbx_plugin_files.Prelude.Text.{Text, codes, text_eq}
use dbx_plugin_files.Store.Rings.{
  TransferRecord, RunRecord, StoreError, clear_transfers, delete_transfer, record_run, stored,
  keep_records, outside_connection,
}
use dbx_plugin_files.Store.Runs.{IsHistory, find_run, record_run-IsHistory}

abbrev sample_transfer : Text → Text → TransferRecord
sample_transfer task connection = record {
  task_id = task;
  connection_id = connection;
  kind = codes "upload";
  remote_path = codes "/a";
  total_bytes = some 3;
  transferred_bytes = 3;
  status = codes "completed";
  error = none;
  started_at = some 1;
  finished_at = some 2;
  local_path = none;
}

abbrev sample_run : Text → Text → RunRecord
sample_run id status = record {
  run_id = id;
  task_id = codes "s1";
  job_id = none;
  trigger = codes "manual";
  status = status;
  started_at = some 1;
  finished_at = none;
  bytes = 0;
  files = none;
  error = none;
}

abbrev two_transfers : List TransferRecord
two_transfers =
    sample_transfer (codes "t1") (codes "c1") ∷ sample_transfer (codes "t2") (codes "c2") ∷ []

clear_one :
    clear_transfers true (some (codes "c1")) two_transfers
    ≡ (ok 1, sample_transfer (codes "t2") (codes "c2") ∷ [])
unfolding clear_transfers stored keep_records outside_connection text_eq
clear_one = refl

clear_every : clear_transfers true none two_transfers ≡ (ok 2, [])
unfolding clear_transfers stored keep_records outside_connection
clear_every = refl

delete_unknown : delete_transfer true (codes "t9") two_transfers ≡ (ok false, two_transfers)
unfolding delete_transfer stored keep_records text_eq
delete_unknown = refl

one_run-IsHistory : IsHistory (sample_run (codes "r1") (codes "running") ∷ [])
unfolding find_run
one_run-IsHistory = record { once = (refl, tt); bounded = omega arith }

record_run-IsHistory_example :
    IsHistory
      (record_run true
        (sample_run (codes "r1") (codes "success"))
        (sample_run (codes "r1") (codes "running") ∷ [])).1
    × (((record_run true
            (sample_run (codes "r1") (codes "success"))
            (sample_run (codes "r1") (codes "running") ∷ [])).0
          ≡ err StoreError.write_failed)
        ⊎ (find_run
              (codes "r1")
              (record_run true
                (sample_run (codes "r1") (codes "success"))
                (sample_run (codes "r1") (codes "running") ∷ [])).1
            ≡ some (sample_run (codes "r1") (codes "success"))))
record_run-IsHistory_example =
    record_run-IsHistory true (sample_run (codes "r1") (codes "success"))
      (sample_run (codes "r1") (codes "running") ∷ []) one_run-IsHistory
