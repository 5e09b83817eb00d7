-- ===== src/Editing/Watch.antt =====
-- The watcher of a remote-edit session: `tick_watch` of backend/src/remote_edit.rs, and what the watch
-- loop, the sync-back and the user's decisions in backend/src/main.rs do to the session. Of a session the
-- fields that launch the editor are left out. A counter is a `u32`.
use dbx_plugin_files.Prelude.{
  ℕ, ◌+◌, ◌-◌, ◌%◌, ◌^◌, Bool, true, false, not, ◌&&◌, ◌==◌, List, [], ◌∷◌, ltb, leb, Option, none,
  some, if◌then◌else◌,
}
use dbx_plugin_files.Prelude.Text.{Text}

-- Size and modification time.
abbrev pub FileStamp : Type 0
FileStamp = ℕ × ℕ

pub data Status : Type 0 where
  downloading watching syncing failed : Status

pub record EditSession : Type 0 where
  pub key : Text
  pub connection_id : Text
  pub remote_path : Text
  pub local_path : Text
  pub status : Status
  pub last_error : Option Text
  pub last_sync_at : Option ℕ
  pub created_at : ℕ
  pub baseline : Option FileStamp
  pub pending_stable : ℕ
  pub error_ticks : ℕ
  pub sync_seq : ℕ
  pub closing : Bool
  pub upload_ask : Bool
  pub always_upload : Bool
  pub pending_confirm : Bool
  pub sync_requested : Bool

pub data WatchDecision : Type 0 where
  continue sync ask close : WatchDecision

abbrev pub stable_ticks : ℕ
stable_ticks = 2

abbrev pub error_retry_ticks : ℕ
error_retry_ticks = 20

abbrev pub next_u32 : ℕ → ℕ
next_u32 n = (n + 1) % 2 ^ 32

-- `session.baseline != Some(current)`.
unfoldable pub differs : Option FileStamp → FileStamp → Bool
differs none current = true
differs (some stamp) current = not (stamp.0 == current.0 && stamp.1 == current.1)

abbrev pub is_syncing : Status → Bool
is_syncing Status.syncing = true
is_syncing _ = false

abbrev pub is_failed : Status → Bool
is_failed Status.failed = true
is_failed _ = false

-- A change that has been seen often enough.
unfoldable pub settled : EditSession → WatchDecision × EditSession
settled session =
    let quiet = record session { pending_stable = 0; error_ticks = 0 } in
    if session.upload_ask && not session.always_upload
    then (WatchDecision.ask, record quiet { pending_confirm = true })
    else (WatchDecision.sync, quiet)

-- The comparison with the baseline at the end of a tick.
unfoldable pub compared : EditSession → FileStamp → WatchDecision × EditSession
unfolding differs settled
compared session current =
    let counted = record session { pending_stable = next_u32 session.pending_stable } in
    if differs session.baseline current
    then (if leb stable_ticks (next_u32 session.pending_stable)
        then settled counted
        else (WatchDecision.continue, counted))
    else (WatchDecision.continue, record session { pending_stable = 0 })

-- A tick of a session whose last sync-back failed.
unfoldable pub retried : EditSession → FileStamp → WatchDecision × EditSession
unfolding differs compared
retried session current =
    if ltb (next_u32 session.error_ticks) error_retry_ticks
    then (WatchDecision.continue, record session { error_ticks = next_u32 session.error_ticks })
    else compared
        (record session {
          error_ticks = 0;
          pending_stable =
              if differs session.baseline current then stable_ticks - 1 else session.pending_stable;
        })
        current

-- A tick of an open session whose local copy is there.
unfoldable pub watched : EditSession → FileStamp → WatchDecision × EditSession
unfolding retried compared
watched session current =
    if session.pending_confirm
    then (WatchDecision.continue, session)
    else if session.sync_requested
    then (
      WatchDecision.sync,
      record session { sync_requested = false; pending_stable = 0; error_ticks = 0 },
    )
    else if is_syncing session.status
    then (WatchDecision.continue, session)
    else if is_failed session.status
    then retried session current
    else compared session current

unfoldable pub tick_watch : EditSession → Option FileStamp → WatchDecision × EditSession
unfolding watched
tick_watch session none = (WatchDecision.close, session)
tick_watch session (some current) =
    if session.closing then (WatchDecision.close, session) else watched session current

-- The actions of `files/remote-edit/decide`.
pub data Decide : Type 0 where
  upload always dismiss : Decide

unfoldable pub decide : Decide → Option FileStamp → EditSession → EditSession
decide Decide.upload current session = record session {
  pending_confirm = false;
  sync_requested = true;
}
decide Decide.always current session = record session {
  pending_confirm = false;
  always_upload = true;
  sync_requested = true;
}
decide Decide.dismiss current session = record session {
  pending_confirm = false;
  baseline = current;
}

-- The three steps of `remote_edit_sync_back`.
unfoldable pub sync_started : EditSession → EditSession
sync_started session = if session.closing then session else record session {
  sync_seq = session.sync_seq + 1;
  status = Status.syncing;
  pending_stable = 0;
}

unfoldable pub sync_done : Option FileStamp → ℕ → EditSession → EditSession
sync_done pre_stamp now session = record session {
  status = Status.watching;
  baseline = pre_stamp;
  last_error = none;
  last_sync_at = some now;
}

unfoldable pub sync_failed : Text → EditSession → EditSession
sync_failed error session = record session { status = Status.failed; last_error = some error }

-- What happens to a session, one step at a time under the lock of the registry.
pub data Event : Type 0 where
  ticks : Option FileStamp → Event
  decides : Decide → Option FileStamp → Event
  closes : Event
  starts : Event
  uploads : Option FileStamp → ℕ → Event
  fails : Text → Event

unfoldable pub step : Event → EditSession → Option WatchDecision × EditSession
unfolding tick_watch decide sync_started sync_done sync_failed
step (ticks current) session =
    let (decision, session') = tick_watch session current in (some decision, session')
step (decides action current) session = (none, decide action current session)
step closes session = (none, record session { closing = true })
step starts session = (none, sync_started session)
step (uploads stamp now) session = (none, sync_done stamp now session)
step (fails error) session = (none, sync_failed error session)

-- The decisions of a run of steps, and the session that they leave.
unfoldable pub run : List Event → EditSession → List WatchDecision × EditSession
unfolding step
run [] session = ([], session)
run (event ∷ events) session =
    let (decision, session') = step event session in
    let (decisions, last) = run events session' in
    (elim decision [ none ↦ decisions | some d ↦ d ∷ decisions ], last)
