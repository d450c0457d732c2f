-- ===== src/Update/Controller/Jobs.antt =====
-- What the controller does with its active job: `transition`, `stop`, `failed`, `start` and
-- `prepare_check` of firmware/anchor/src/core/update_controller.cpp. A `UpdateJob &` is a slot.
use bin_range.Base.{
  ℕ, zero, suc, ◌+◌, ◌/◌, ◌%◌, Bool, true, false, not, ◌&&◌, ◌||◌, none, some, List, [], ◌∷◌, ◌++◌,
  ltb, ◌==◌, if◌then◌else◌, set, get_or, codes, u32,
}
use bin_range.Update.Job.{
  UpdatePhase, UpdateJob, waiting, connecting, checking, needs_action, same_phase, update_terminal,
  update_transition, update_attempt, update_error,
}
use bin_range.Update.Queue.{u32_max, same_target}
use bin_range.Update.Smp.{tag_status}
use bin_range.Update.Controller.{
  Ports, UpdateController, connect, association_of, active_slot, job_at, in_phase, index, later,
  cooldown, confirmation_deadline,
}
use bin_range.Update.Controller.Link.{disable, checkpoint, submit, close}

-- `%u` and `%lu`: the decimal digits; ten are enough for 32 bits.
unfoldable pub digits : ℕ → ℕ → List ℕ
digits zero n = []
digits (suc fuel) n = elim (ltb n 10) [
  | true ↦ (48 + n) ∷ []
  | false ↦ digits fuel (n / 10) ++ ((48 + n % 10) ∷ [])
]

unfoldable pub decimal : ℕ → List ℕ
unfolding digits
decimal n = digits 10 n

-- The phase that `failed` moves to.
abbrev pub after_failure : UpdateJob → Bool → UpdatePhase
after_failure job retryable =
    if retryable && ltb job.attempts 3
    then (if job.trial_may_be_armed || same_phase job.phase checking then checking else waiting)
    else needs_action

module _ {S : Type 0} where
  abbrev put_job : ℕ → UpdateController S → UpdateJob × Bool → UpdateController S × Bool
  put_job slot c (job, done) =
      (record c { queue = record (c.queue) { jobs = set c.queue.jobs slot job } }, done)

  -- A policy call on the job in a slot.
  unfoldable pub on_job :
      ℕ → (UpdateJob → UpdateJob × Bool) → UpdateController S → UpdateController S × Bool
  on_job slot call c = elim (job_at c slot) [
    | none ↦ (c, false)
    | some job ↦ put_job slot c (call job)
  ]

  -- `update_error(*job, text, now)`, whose answer is not used.
  abbrev pub note_error : ℕ → List ℕ → ℕ → UpdateController S → UpdateController S
  note_error slot text now c = (on_job slot (λ job. update_error job (some text) now) c).0

  -- `first && second()`.
  abbrev pub and_then :
      UpdateController S × Bool
      → (UpdateController S → UpdateController S × Bool)
      → UpdateController S × Bool
  and_then (c, true) next = next c
  and_then (c, false) next = (c, false)

  -- `if (!first) second();`
  abbrev pub or_else :
      UpdateController S × Bool → (UpdateController S → UpdateController S) → UpdateController S
  or_else (c, true) next = c
  or_else (c, false) next = next c

  -- Go on one way or the other.
  abbrev pub if_done :
      UpdateController S × Bool
      → (UpdateController S → UpdateController S)
      → (UpdateController S → UpdateController S)
      → UpdateController S
  if_done (c, true) granted refused = granted c
  if_done (c, false) granted refused = refused c

  unfoldable pub transition :
      Ports S → ℕ → UpdatePhase → ℕ → UpdateController S → UpdateController S × Bool
  unfolding on_job checkpoint
  transition ports slot phase now c =
      and_then (on_job slot (λ job. update_transition job phase now) c) (checkpoint ports)

  abbrev live : UpdateController S → ℕ → Bool
  live c slot = elim (job_at c slot) [ none ↦ false | some job ↦ not (update_terminal job.phase) ]

  abbrev pub move_to : ℕ → UpdatePhase → ℕ → UpdateController S → UpdateController S
  move_to slot phase now c =
      if in_phase c slot phase
      then c
      else or_else (on_job slot (λ job. update_transition job phase now) c)
          (disable (codes "Invalid update transition; restart required"))

  -- The body of the test in `stop`.
  unfoldable pub record_stop :
      Ports S → ℕ → UpdatePhase → List ℕ → ℕ → UpdateController S → UpdateController S
  unfolding on_job disable checkpoint
  record_stop ports slot phase text now c =
      (checkpoint ports (move_to slot phase now (note_error slot text now c))).0

  abbrev pub stopped : Ports S → UpdatePhase → List ℕ → ℕ → UpdateController S → UpdateController S
  stopped ports phase text now c = elim (active_slot c) [
    | none ↦ c
    | some slot ↦
        if live c slot && not c.disabled then record_stop ports slot phase text now c else c
  ]

  unfoldable pub stop :
      Ports S → UpdatePhase → List ℕ → ℕ → ℕ → UpdateController S → UpdateController S
  unfolding record_stop close
  stop ports phase text now delay c = close ports now delay (stopped ports phase text now c)

  abbrev pub set_until : ℕ → ℕ → UpdateController S → UpdateController S
  set_until slot at c = record c { checking_until = set c.checking_until slot at }

  abbrev pub set_deadline : ℕ → ℕ → UpdateController S → UpdateController S
  set_deadline slot now c =
      if get_or c.checking_until slot 0 == 0
      then set_until slot (later now confirmation_deadline) c
      else c

  -- The slot comes from `index(job.id())`.
  unfoldable pub prepare_check : Ports S → ℕ → ℕ → UpdateController S → UpdateController S × Bool
  unfolding index transition
  prepare_check ports at now c = elim (job_at c at) [
    | none ↦ (c, false)
    | some job ↦
        if index c job.id == 16
        then (c, false)
        else if same_phase job.phase checking
        then (set_deadline (index c job.id) now c, true)
        else transition ports at checking now (set_deadline (index c job.id) now c)
  ]

  abbrev pub inspect_later : Ports S → ℕ → UpdatePhase → ℕ → UpdateController S → UpdateController S
  inspect_later ports slot next now c =
      if same_phase next checking then (prepare_check ports slot now c).0 else c

  unfoldable pub failed_with : Ports S → List ℕ → ℕ → Bool → UpdateController S → UpdateController S
  unfolding prepare_check stop
  failed_with ports text now retryable c = elim (active_slot c) [
    | none ↦ c
    | some slot ↦ elim (job_at c slot) [
      | none ↦ c
      | some job ↦
          stop ports (after_failure job retryable) text now cooldown
            (inspect_later ports slot (after_failure job retryable) now c)
    ]
  ]

  -- The association is there, is the job's, and a session ID is left.
  abbrev can_start : UpdateJob → UpdateController S → Bool
  can_start job c = elim (association_of job.target.tag c.associations) [
    | none ↦ false
    | some a ↦ same_target job.target a.target && not (c.session == u32_max)
  ]

  abbrev pub opened : ℕ → ℕ → UpdateController S → UpdateController S
  opened id now c = record c {
    active_job_id = id;
    session = u32 (c.session + 1);
    session_started = now;
    stalled = 0;
  }

  -- From the checkpoint on: a durable attempt and phase before any radio operation.
  unfoldable pub open_session : Ports S → ℕ → ℕ → UpdateController S → UpdateController S
  unfolding checkpoint submit failed_with
  open_session ports id now c =
      if_done (checkpoint ports c)
        (λ c'.
          or_else (submit ports connect tag_status now (opened id now c'))
            (failed_with ports (codes "BLE connection could not be queued") now true))
        (λ c'. c')

  abbrev pub exhausted : Ports S → ℕ → ℕ → UpdateController S → UpdateController S
  exhausted ports slot now c =
      (transition ports slot needs_action now
        (note_error slot (codes "Connection attempts exhausted; operator retry required") now c)).0

  unfoldable pub start_attempt : Ports S → ℕ → ℕ → ℕ → UpdateController S → UpdateController S
  unfolding on_job transition open_session
  start_attempt ports slot id now c =
      if_done (on_job slot (λ job. update_attempt job now) c) (open_session ports id now)
        (exhausted ports slot now)

  abbrev pub connect_phase : ℕ → UpdateJob → ℕ → UpdateController S → UpdateController S × Bool
  connect_phase slot job now c =
      if same_phase job.phase checking
      then (c, true)
      else on_job slot (λ j. update_transition j connecting now) c

  unfoldable pub start : Ports S → ℕ → ℕ → UpdateController S → UpdateController S
  unfolding disable on_job start_attempt
  start ports slot now c = elim (job_at c slot) [
    | none ↦ c
    | some job ↦
        if not (can_start job c)
        then disable (codes "Association missing or session IDs exhausted") c
        else if_done (connect_phase slot job now c) (start_attempt ports slot job.id now) (λ c'. c')
  ]
