-- ===== src/Editing/Settling.antt =====
-- When the watcher of backend/src/remote_edit.rs acts on a change of the local copy.
use dbx_plugin_files.Prelude.{
  ℕ, ◌+◌, ◌<◌, ◌≡◌, refl, true, false, not, ◌&&◌, List, [], ◌∷◌, ◌++◌, length, ltb, some, arith,
  if◌then◌else◌, ap, ◌∙◌, Bool-cases, inl, inr, zero, suc, replicate, All,
}
use dbx_plugin_files.Editing.Watch.{
  FileStamp, EditSession, WatchDecision, next_u32, error_retry_ticks, differs, is_syncing,
  is_failed, settled, compared, retried, watched, tick_watch,
}

-- A session that no close, question, decision or upload holds up.
pub record IsFree (session : EditSession) : Type 0 where
  pub live : session.closing ≡ false
  pub settled_question : session.pending_confirm ≡ false
  pub unasked : session.sync_requested ≡ false
  pub ready : is_syncing session.status ≡ false

abbrev pub asking : EditSession → WatchDecision
asking session =
    if session.upload_ask && not session.always_upload
    then WatchDecision.ask
    else WatchDecision.sync

-- A tick of a free session is the comparison, or the retry where the last sync-back failed.
free_tick :
    (session : EditSession) (current : FileStamp)
    → IsFree session
    → tick_watch session (some current)
      ≡ (if is_failed session.status then retried session current else compared session current)
unfolding tick_watch watched
free_tick session current free =
    rw (free.live, watched, free.settled_question, free.unasked, free.ready) refl

settled_asks : (session : EditSession) → (settled session).0 ≡ asking session
unfolding settled
settled_asks session = elim (Bool-cases (session.upload_ask && not session.always_upload)) [
  | inl asks ↦ rw (settled, asks) refl
  | inr silent ↦ rw (settled, silent) refl
]

compared_first :
    (session : EditSession) (current : FileStamp)
    → differs session.baseline current ≡ true
    → session.pending_stable ≡ 0
    → compared session current ≡ (WatchDecision.continue, record session { pending_stable = 1 })
unfolding compared
compared_first session current changed fresh = rw (compared, changed, fresh) refl

compared_second :
    (session : EditSession) (current : FileStamp)
    → differs session.baseline current ≡ true
    → session.pending_stable ≡ 1
    → (compared session current).0 ≡ asking session
unfolding compared
compared_second session current changed seen =
    rw (compared, changed, seen) (settled_asks (record session { pending_stable = 2 }))

-- Two polls that find the copy different from the baseline lead to the upload or to the question, at
-- whatever two states they find it: the states need not be the same, so that a copy that is still being
-- written counts as settled.
pub tick_watch_unsettled :
    (session : EditSession) (first second : FileStamp)
    → IsFree session
    → is_failed session.status ≡ false
    → session.pending_stable ≡ 0
    → differs session.baseline first ≡ true
    → differs session.baseline second ≡ true
    → ((tick_watch session (some first)).0 ≡ WatchDecision.continue)
      × ((tick_watch (tick_watch session (some first)).1 (some second)).0 ≡ asking session)
tick_watch_unsettled session first second free fine fresh changed still =
    let seen : EditSession = record session { pending_stable = 1 } in
    let one : tick_watch session (some first) ≡ (WatchDecision.continue, seen) =
      free_tick session first free ∙ rw fine (compared_first session first changed fresh) in
    let two : (tick_watch seen (some second)).0 ≡ asking session =
      ap (λ answer. answer.0)
        (free_tick seen second (record {
          live = free.live;
          settled_question = free.settled_question;
          unasked = free.unasked;
          ready = free.ready;
        }))
      ∙ rw fine (compared_second seen second still refl) in
    (ap (λ answer. answer.0) one, ap (λ answer. (tick_watch answer.1 (some second)).0) one ∙ two)

-- The ticks of a failed session before and at the end of its window.
retried_early :
    (session : EditSession) (current : FileStamp)
    → session.error_ticks + 1 < 20
    → retried session current
      ≡ (WatchDecision.continue, record session { error_ticks = session.error_ticks + 1 })
unfolding retried
retried_early session current early =
    let same : next_u32 session.error_ticks ≡ session.error_ticks + 1 = omega arith in
    let below : ltb (session.error_ticks + 1) error_retry_ticks ≡ true = ground arith in
    rw (retried, same, below) refl

retried_due :
    (session : EditSession) (current : FileStamp)
    → session.error_ticks ≡ 19
    → differs session.baseline current ≡ true
    → (retried session current).0 ≡ asking session
unfolding retried
retried_due session current due changed =
    rw (retried, due, changed)
      (settled_asks (record session {
        pending_stable =
            next_u32 (if differs session.baseline current then 1 else session.pending_stable);
        error_ticks = 0;
      }))

-- The decisions of a poll for each stamp.
unfoldable pub polls : EditSession → List FileStamp → List WatchDecision
polls session [] = []
polls session (stamp ∷ stamps) =
    (tick_watch session (some stamp)).0 ∷ polls (tick_watch session (some stamp)).1 stamps

-- A failed session whose copy still differs from the baseline waits out its window of twenty polls, and
-- the last of them leads to the upload or to the question.
pub polls-retry :
    (waits : ℕ) (session : EditSession) (stamps : List FileStamp) (last : FileStamp)
    → IsFree session
    → is_failed session.status ≡ true
    → length stamps ≡ waits
    → session.error_ticks + waits ≡ 19
    → All (λ stamp. differs session.baseline stamp ≡ true) (stamps ++ (last ∷ []))
    → polls session (stamps ++ (last ∷ []))
      ≡ replicate waits WatchDecision.continue ++ (asking session ∷ [])
unfolding polls
polls-retry zero session [] last free bad count window changed =
    let answer : (tick_watch session (some last)).0 ≡ asking session =
      ap (λ answer. answer.0) (free_tick session last free)
      ∙ rw bad (retried_due session last (omega arith) changed.0) in
    ap (λ d. d ∷ []) answer
polls-retry (suc waits) session (stamp ∷ stamps) last free bad count window changed =
    let later : EditSession = record session { error_ticks = session.error_ticks + 1 } in
    let one : tick_watch session (some stamp) ≡ (WatchDecision.continue, later) =
      free_tick session stamp free ∙ rw bad (retried_early session stamp (omega arith)) in
    let rest =
      polls-retry waits later stamps last
        (record {
          live = free.live;
          settled_question = free.settled_question;
          unasked = free.unasked;
          ready = free.ready;
        })
        bad (omega arith) (omega arith) changed.1 in
    ap (λ answer. answer.0 ∷ polls answer.1 (stamps ++ (last ∷ []))) one
    ∙ ap (λ ds. WatchDecision.continue ∷ ds) rest
polls-retry zero session (stamp ∷ stamps) last free bad count window changed = absurd (omega arith)
polls-retry (suc waits) session [] last free bad count window changed = absurd (omega arith)
