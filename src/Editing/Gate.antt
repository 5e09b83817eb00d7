-- ===== src/Editing/Gate.antt =====
-- The upload gate of a remote-edit session: nothing is uploaded without the user's approval.
use dbx_plugin_files.Prelude.{
  ℕ, ◌+◌, ◌-◌, ◌≤◌, ◌≡◌, refl, Bool, true, false, not, ◌&&◌, List, [], ◌∷◌, ltb, leb, Option, none,
  some, arith, if◌then◌else◌,
}
use dbx_plugin_files.Editing.Watch.{
  FileStamp, EditSession, WatchDecision, Decide, Event, next_u32, stable_ticks, error_retry_ticks,
  differs, is_syncing, is_failed, settled, compared, retried, watched, tick_watch, decide,
  sync_started, sync_done, sync_failed, step, run,
}

abbrev pub sync_of : WatchDecision → ℕ
sync_of WatchDecision.sync = 1
sync_of _ = 0

unfoldable pub syncs : List WatchDecision → ℕ
syncs [] = 0
syncs (decision ∷ decisions) = sync_of decision + syncs decisions

abbrev pub approval : Event → ℕ
approval (Event.decides Decide.upload current) = 1
approval _ = 0

unfoldable pub approvals : List Event → ℕ
approvals [] = 0
approvals (event ∷ events) = approval event + approvals events

-- No event is a grant for all later saves.
abbrev pub grants : Event → Bool
grants (Event.decides Decide.always current) = true
grants _ = false

abbrev pub NoGrant : List Event → Type 0
NoGrant [] = Unit
NoGrant (event ∷ events) = (grants event ≡ false) × NoGrant events

abbrev pub weight : EditSession → ℕ
weight session = if session.sync_requested then 1 else 0

-- A session that asks before it uploads.
abbrev pub IsGated : EditSession → Type 0
IsGated session = (session.upload_ask ≡ true) × (session.always_upload ≡ false)

-- What a tick spends.
abbrev Spends : EditSession → WatchDecision × EditSession → Type 0
Spends session answer = (sync_of answer.0 + weight answer.1 ≤ weight session) × IsGated answer.1

Spends-if :
    (session : EditSession) (test : Bool) (x y : WatchDecision × EditSession)
    → (test ≡ true → Spends session x)
    → (test ≡ false → Spends session y)
    → Spends session (if test then x else y)
Spends-if session true x y h k = h refl
Spends-if session false x y h k = k refl

settled-Spends : (session : EditSession) → IsGated session → Spends session (settled session)
unfolding settled
settled-Spends session gated =
    Spends-if session (session.upload_ask && not session.always_upload) _ _
      (λ asks. (omega arith, gated)) (λ silent. absurd (ground arith))

compared-Spends :
    (session : EditSession) (current : FileStamp)
    → IsGated session
    → Spends session (compared session current)
unfolding compared
compared-Spends session current gated =
    let counted = record session { pending_stable = next_u32 session.pending_stable } in
    Spends-if session (differs session.baseline current) _ _
      (λ changed.
        Spends-if session (leb stable_ticks (next_u32 session.pending_stable)) _ _
          (λ enough. settled-Spends counted gated) (λ early. (omega arith, gated)))
      (λ same. (omega arith, gated))

retried-Spends :
    (session : EditSession) (current : FileStamp)
    → IsGated session
    → Spends session (retried session current)
unfolding retried
retried-Spends session current gated =
    Spends-if session (ltb (next_u32 session.error_ticks) error_retry_ticks) _ _
      (λ early. (omega arith, gated))
      (λ due.
        compared-Spends
          (record session {
            error_ticks = 0;
            pending_stable =
                if differs session.baseline current
                then stable_ticks - 1
                else session.pending_stable;
          })
          current gated)

watched-Spends :
    (session : EditSession) (current : FileStamp)
    → IsGated session
    → Spends session (watched session current)
unfolding watched
watched-Spends session current gated =
    Spends-if session session.pending_confirm _ _ (λ held. (omega arith, gated))
      (λ free.
        Spends-if session session.sync_requested _ _ (λ asked. (ground arith, gated))
          (λ unasked.
            Spends-if session (is_syncing session.status) _ _ (λ busy. (omega arith, gated))
              (λ idle.
                Spends-if session (is_failed session.status) _ _
                  (λ bad. retried-Spends session current gated)
                  (λ good. compared-Spends session current gated))))

tick_watch-Spends :
    (session : EditSession) (current : Option FileStamp)
    → IsGated session
    → Spends session (tick_watch session current)
unfolding tick_watch
tick_watch-Spends session none gated = (omega arith, gated)
tick_watch-Spends session (some current) gated =
    Spends-if session session.closing _ _ (λ done. (omega arith, gated))
      (λ live. watched-Spends session current gated)

abbrev seen : Option WatchDecision → ℕ
seen none = 0
seen (some decision) = sync_of decision

count_seen :
    (decision : Option WatchDecision) (decisions : List WatchDecision)
    → syncs (elim decision [ none ↦ decisions | some d ↦ d ∷ decisions ])
      ≡ seen decision + syncs decisions
unfolding syncs
count_seen none decisions = omega arith
count_seen (some decision) decisions = refl

step-Spends :
    (event : Event) (session : EditSession)
    → IsGated session
    → grants event ≡ false
    → (seen (step event session).0 + weight (step event session).1
        ≤ approval event + weight session)
      × IsGated (step event session).1
unfolding step
step-Spends (Event.ticks current) session gated h =
    let (spent, gated') = tick_watch-Spends session current gated in (omega (arith, spent), gated')
step-Spends (Event.decides Decide.upload current) session gated h =
    unfold decide in (ground arith, gated)
step-Spends (Event.decides Decide.always current) session gated h = absurd (cc)
step-Spends (Event.decides Decide.dismiss current) session gated h =
    unfold decide in (omega arith, gated)
step-Spends Event.closes session gated h = (omega arith, gated)
step-Spends Event.starts session gated h = unfold sync_started in ground arith
step-Spends (Event.uploads stamp now) session gated h = unfold sync_done in (omega arith, gated)
step-Spends (Event.fails error) session gated h = unfold sync_failed in (omega arith, gated)

-- On a session that asks, and in a run of any steps without a grant for all later saves, there are no
-- more uploads than approvals of the user, an approval that is still open at the start counted in, and
-- those that are still open at the end counted out; and the session still asks.
pub run-approvals :
    (events : List Event) (session : EditSession)
    → IsGated session
    → NoGrant events
    → (syncs (run events session).0 + weight (run events session).1
        ≤ approvals events + weight session)
      × IsGated (run events session).1
unfolding run syncs approvals
run-approvals [] session gated h = (omega arith, gated)
run-approvals (event ∷ events) session gated h =
    let (spent, gated') = step-Spends event session gated h.0 in
    let ih = run-approvals events (step event session).1 gated' h.1 in
    let counted = count_seen (step event session).0 (run events (step event session).1).0 in
    (omega (arith, counted, spent, ih.0), ih.1)
