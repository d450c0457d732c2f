-- ===== src/Update/Queue.antt =====
-- `UpdateQueue`: the bounded store of update jobs, and its persistence boundary, of
-- firmware/anchor/src/core/update_job.h and update_job.cpp. Of `jobs_[16]` the model keeps the
-- first `size_` entries, which are all that the code reads; a returned pointer is a slot number.
pub mod Entries
pub mod Validity
pub mod Invariant
pub mod Slots
pub mod Enqueue
pub mod Admission
pub mod Restore
pub mod Restart
pub mod History
pub mod Duplicates
use bin_range.Base.{
  ℕ, suc, zero, ◌+◌, Bool, true, false, not, ◌&&◌, ◌||◌, Option, none, some, List, [], ◌∷◌, map,
  ltb, leb, ◌==◌, if◌then◌else◌, length, take, replicate, get_or,
}
use bin_range.Update.Job.{
  UpdatePhase, UpdateTarget, UpdateRelease, UpdateJob, queued, rebooting, checking, needs_action,
  successful, failed, phase_byte, same_phase, update_terminal, update_after_restart, hex_digit,
  bytes_eq, error_size,
}

abbrev pub u32_max : ℕ
u32_max = 0xffff_ffff

abbrev pub u16_max : ℕ
u16_max = 0xffff

abbrev pub update_queue_max : ℕ
update_queue_max = 16

-- What is persisted of a job: everything but the uptime.
pub record UpdateJobState : Type 0 where
  pub id : ℕ
  pub target : UpdateTarget
  pub release : UpdateRelease
  pub phase : UpdatePhase
  pub acknowledged : ℕ
  pub attempts : ℕ
  pub error : List ℕ
  pub trial_may_be_armed : Bool

pub record UpdateQueue : Type 0 where
  pub jobs : List UpdateJob
  pub next_id : ℕ
  pub id_exhausted : Bool

unfoldable pub init : ℕ → UpdateQueue
init first_id = record { jobs = []; next_id = first_id; id_exhausted = first_id == 0 }

-- `for (i < count) if (!hex_digit(text[i])) return false;`
unfoldable pub hex_prefix : ℕ → List ℕ → Bool
hex_prefix zero text = true
hex_prefix (suc count) [] = false
hex_prefix (suc count) (c ∷ text) = hex_digit c && hex_prefix count text

unfoldable pub valid_target : UpdateTarget → Bool
valid_target target =
    if target.tag == 0 || target.tag == u16_max || not (get_or target.hardware_id 16 0 == 0)
    then false
    else hex_prefix 16 target.hardware_id

unfoldable pub valid_release : UpdateRelease → Bool
valid_release release =
    leb 32 release.size
    && leb release.size 212992
    && not (get_or release.version 0 0 == 0)
    && get_or release.version 23 0 == 0

unfoldable pub same_target : UpdateTarget → UpdateTarget → Bool
same_target a b = a.tag == b.tag && bytes_eq a.hardware_id b.hardware_id

-- The loop of `enqueue` that looks for a live job of the same target.
unfoldable pub has_live_target : UpdateTarget → List UpdateJob → Bool
has_live_target target [] = false
has_live_target target (job ∷ jobs) =
    not (update_terminal job.phase) && same_target job.target target || has_live_target target jobs

-- One round of the loop of `enqueue` over a full queue: `best` holds `oldest` and `slot` once
-- `found` is set.
abbrev pub better : UpdateJob → ℕ → Option (ℕ × ℕ) → Option (ℕ × ℕ)
better job i none = if update_terminal job.phase then some (job.changed_ms, i) else none
better job i (some (oldest, slot)) =
    if update_terminal job.phase && ltb job.changed_ms oldest
    then some (job.changed_ms, i)
    else some (oldest, slot)

unfoldable pub oldest_terminal : ℕ → Option (ℕ × ℕ) → List UpdateJob → Option (ℕ × ℕ)
oldest_terminal i best [] = best
oldest_terminal i best (job ∷ jobs) = oldest_terminal (i + 1) (better job i best) jobs

-- The slot for a new job: the end of the array, or the oldest terminal job of a full one.
unfoldable pub enqueue_slot : List UpdateJob → Option ℕ
enqueue_slot jobs =
    if length jobs == update_queue_max
    then elim (oldest_terminal 0 none jobs) [ none ↦ none | some (oldest, slot) ↦ some slot ]
    else some (length jobs)

-- `jobs_[slot] = job`, where `slot` may be the end of the used part.
unfoldable pub put : List UpdateJob → ℕ → UpdateJob → List UpdateJob
put [] slot job = job ∷ []
put (x ∷ jobs) zero job = job ∷ jobs
put (x ∷ jobs) (suc slot) job = x ∷ put jobs slot job

-- The job that `enqueue` stores: `UpdateJob` value-initialised, then filled in.
abbrev pub new_job : ℕ → UpdateTarget → UpdateRelease → ℕ → UpdateJob
new_job id target release now = record {
  id = id;
  target = target;
  release = release;
  phase = queued;
  acknowledged = 0;
  attempts = 0;
  changed_ms = now;
  error = replicate error_size 0;
  trial_may_be_armed = false;
}

abbrev pub store_new : UpdateQueue → ℕ → UpdateJob → UpdateQueue
store_new q slot job = record {
  jobs = put q.jobs slot job;
  next_id = if q.next_id == u32_max then q.next_id else q.next_id + 1;
  id_exhausted = q.next_id == u32_max || q.id_exhausted;
}

unfoldable pub enqueue : UpdateQueue → UpdateTarget → UpdateRelease → ℕ → UpdateQueue × Option ℕ
enqueue q target release now =
    if not (valid_target target) || not (valid_release release) || q.id_exhausted
    then (q, none)
    else if has_live_target target q.jobs
    then (q, none)
    else elim (enqueue_slot q.jobs) [
      | none ↦ (q, none)
      | some slot ↦ (store_new q slot (new_job q.next_id target release now), some slot)
    ]

-- `find`, in both its forms: the first slot with this ID.
unfoldable pub find_from : ℕ → ℕ → List UpdateJob → Option ℕ
find_from i id [] = none
find_from i id (job ∷ jobs) = if job.id == id then some i else find_from (i + 1) id jobs

unfoldable pub find : UpdateQueue → ℕ → Option ℕ
unfolding find_from
find q id = find_from 0 id q.jobs

unfoldable pub update_export_state : UpdateJob → UpdateJobState
update_export_state job = record {
  id = job.id;
  target = job.target;
  release = job.release;
  phase = job.phase;
  acknowledged = job.acknowledged;
  attempts = job.attempts;
  error = job.error;
  trial_may_be_armed = job.trial_may_be_armed;
}

-- `memchr(bytes, 0, count)`, as found or not.
unfoldable pub has_zero : ℕ → List ℕ → Bool
has_zero zero bytes = false
has_zero (suc count) [] = false
has_zero (suc count) (c ∷ bytes) = c == 0 || has_zero count bytes

-- The checks of `valid_restore` on one entry.
unfoldable pub valid_state : UpdateJobState → Bool
valid_state s =
    if s.id == 0
      || not (valid_target s.target)
      || not (valid_release s.release)
      || ltb (phase_byte needs_action) (phase_byte s.phase)
      || ltb s.release.size s.acknowledged
      || ltb 3 s.attempts
      || not (has_zero error_size s.error)
    then false
    else if same_phase s.phase rebooting && not s.trial_may_be_armed
    then false
    else not (
        s.trial_may_be_armed
        && not (same_phase s.phase rebooting)
        && not (same_phase s.phase checking)
        && not (same_phase s.phase needs_action)
        && not (same_phase s.phase successful)
        && not (same_phase s.phase failed))

-- The checks of one entry against another.
unfoldable pub clash : UpdateJobState → UpdateJobState → Bool
clash s t =
    s.id == t.id
    || not (update_terminal s.phase)
      && not (update_terminal t.phase)
      && s.target.tag == t.target.tag

-- The inner loop: `s` against the entries before it.
unfoldable pub clashes : UpdateJobState → List UpdateJobState → Bool
clashes s [] = false
clashes s (t ∷ ts) = clash s t || clashes s ts

-- The outer loop, with the entries already passed.
unfoldable pub valid_entries : List UpdateJobState → List UpdateJobState → Bool
valid_entries seen [] = true
valid_entries seen (s ∷ rest) =
    valid_state s && not (clashes s seen) && valid_entries (s ∷ seen) rest

-- `states` is `none` for a null pointer; an array holds at least `count` entries.
unfoldable pub valid_restore : Option (List UpdateJobState) → ℕ → Bool
unfolding valid_entries
valid_restore none count = count == 0
valid_restore (some states) count =
    not (ltb update_queue_max count) && valid_entries [] (take count states)

abbrev pub restored_job : ℕ → UpdateJobState → UpdateJob
restored_job now s = record {
  id = s.id;
  target = s.target;
  release = s.release;
  phase = update_after_restart s.phase;
  acknowledged = if update_terminal s.phase then s.acknowledged else 0;
  attempts = s.attempts;
  changed_ms = now;
  error = s.error;
  trial_may_be_armed = s.trial_may_be_armed;
}

unfoldable pub largest_id : ℕ → List UpdateJobState → ℕ
largest_id largest [] = largest
largest_id largest (s ∷ rest) = largest_id (if ltb largest s.id then s.id else largest) rest

abbrev pub restored_queue : List UpdateJobState → ℕ → UpdateQueue
restored_queue states now =
    let largest = largest_id 0 states in
    record {
      jobs = map (restored_job now) states;
      next_id = if largest == u32_max then 0 else largest + 1;
      id_exhausted = largest == u32_max;
    }

-- The entries that `states` and `count` name.
abbrev pub entries : Option (List UpdateJobState) → ℕ → List UpdateJobState
entries none count = []
entries (some states) count = take count states

unfoldable pub restore : UpdateQueue → Option (List UpdateJobState) → ℕ → ℕ → UpdateQueue × Bool
restore q states count new_boot_now =
    if valid_restore states count
    then (restored_queue (entries states count) new_boot_now, true)
    else (q, false)

-- A call of a policy helper through the pointer to slot `i`.
abbrev pub modify : (UpdateJob → UpdateJob) → List UpdateJob → ℕ → List UpdateJob
modify f [] i = []
modify f (x ∷ jobs) zero = f x ∷ jobs
modify f (x ∷ jobs) (suc i) = x ∷ modify f jobs i
