-- ===== src/Update/Job/Edges.antt =====
-- The transition table as firmware/anchor/src/core/update_job.h states it, against the guards of
-- `update_transition`.
use bin_range.Base.{ℕ, ◌≤◌, ◌≡◌, ◌⊎◌, ◌↔◌, true, false, refl, arith}
use bin_range.Update.Job.{
  UpdatePhase, UpdateJob, queued, waiting, connecting, uploading, rebooting, checking, failed,
  cancelled, needs_release, needs_action, allowed_edge, update_terminal, update_transition,
}

-- The table of the header, a constructor for each of its arrows.
pub data Edge : UpdatePhase → UpdatePhase → Type 0 where
  queued_waiting : Edge queued waiting
  queued_cancelled : Edge queued cancelled
  queued_failed : Edge queued failed
  waiting_connecting : Edge waiting connecting
  waiting_cancelled : Edge waiting cancelled
  waiting_failed : Edge waiting failed
  waiting_needs_release : Edge waiting needs_release
  connecting_waiting : Edge connecting waiting
  connecting_uploading : Edge connecting uploading
  connecting_checking : Edge connecting checking
  connecting_cancelled : Edge connecting cancelled
  connecting_failed : Edge connecting failed
  connecting_needs_action : Edge connecting needs_action
  uploading_waiting : Edge uploading waiting
  uploading_rebooting : Edge uploading rebooting
  uploading_cancelled : Edge uploading cancelled
  uploading_failed : Edge uploading failed
  uploading_needs_release : Edge uploading needs_release
  uploading_needs_action : Edge uploading needs_action
  rebooting_checking : Edge rebooting checking
  rebooting_needs_action : Edge rebooting needs_action
  checking_failed : Edge checking failed
  checking_needs_action : Edge checking needs_action
  needs_release_waiting : Edge needs_release waiting
  needs_release_cancelled : Edge needs_release cancelled
  needs_action_checking : Edge needs_action checking
  needs_action_cancelled : Edge needs_action cancelled

ruleset edges = (
  queued_waiting, queued_cancelled, queued_failed, waiting_connecting, waiting_cancelled,
  waiting_failed, waiting_needs_release, connecting_waiting, connecting_uploading,
  connecting_checking, connecting_cancelled, connecting_failed, connecting_needs_action,
  uploading_waiting, uploading_rebooting, uploading_cancelled, uploading_failed,
  uploading_needs_release, uploading_needs_action, rebooting_checking, rebooting_needs_action,
  checking_failed, checking_needs_action, needs_release_waiting, needs_release_cancelled,
  needs_action_checking, needs_action_cancelled,
)

Edge-allowed_edge : {p q : UpdatePhase} → Edge p q → allowed_edge p q ≡ true
unfolding allowed_edge
Edge-allowed_edge queued_waiting = refl
Edge-allowed_edge _ = refl

allowed_edge-Edge : (p q : UpdatePhase) → allowed_edge p q ≡ true → Edge p q
unfolding allowed_edge
allowed_edge-Edge queued waiting h = queued_waiting
allowed_edge-Edge p q h = grind (arith, edges)

Edge-live : {p q : UpdatePhase} → Edge p q → update_terminal p ≡ false
Edge-live queued_waiting = refl
Edge-live _ = refl

-- `update_transition` succeeds exactly on an arrow of the header's table, at a time that does not
-- go back, and to `cancelled` only while no trial may be armed.
pub update_transition-true_iff :
    (job : UpdateJob) (next : UpdatePhase) (now : ℕ)
    → ((update_transition job next now).1 ≡ true) ↔ (
        Edge job.phase next
        × (job.changed_ms ≤ now)
        × (next ≡ cancelled → job.trial_may_be_armed ≡ false))
unfolding update_transition
update_transition-true_iff job next now = (
  λ h. (ground (arith, allowed_edge-Edge job.phase next), ground arith, λ e. ground arith),
  λ h. ground (arith, Edge-allowed_edge h.0, Edge-live h.0),
)

-- A successful transition sets the phase and the time, forgets the offset when it defers the
-- transfer or starts a fresh one, arms the trial when it enters `rebooting`, and changes nothing
-- else; a failed one changes nothing.
pub update_transition_lem :
    (job : UpdateJob) (next : UpdatePhase) (now : ℕ)
    → let (job', done) = update_transition job next now in
      ((done ≡ false) × (job' ≡ job))
      ⊎ ((done ≡ true)
          × (job'.phase ≡ next)
          × (job'.changed_ms ≡ now)
          × ((next ≡ needs_release) ⊎ (next ≡ uploading) → job'.acknowledged ≡ 0)
          × (next ≡ rebooting → job'.trial_may_be_armed ≡ true))
unfolding update_transition
update_transition_lem job next now = ground arith
