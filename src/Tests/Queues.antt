-- ===== src/Tests/Queues.antt =====
-- `UpdateQueue` on small queues.
use bin_range.Base.{◌≡◌, ◌⊎◌, true, false, refl, arith, some, length, get_elem?}
use bin_range.Update.Job.{hex_digit, bytes_eq}
use bin_range.Update.Queue.{
  UpdateQueue, init, enqueue, valid_target, valid_release, hex_prefix, same_target, has_live_target,
  enqueue_slot, valid_restore, restore, update_export_state,
}
use bin_range.Update.Job.{UpdateJob}
use bin_range.Update.Queue.Invariant.{IsValid, states}
use bin_range.Update.Queue.History.{here, next, enqueues, history_restorable}
use bin_range.Update.Queue.Enqueue.{
  Refuses, Fresh, enqueue_keeps_live, enqueue_stores, enqueue-Refuses,
}
use bin_range.Update.Queue.Slots.{Slot}
use bin_range.Update.Queue.Admission.{has_live_tag, enqueue-IsValid}
use bin_range.Update.Queue.Restart.{RestartsAll, restart_keeps_jobs}
use bin_range.Update.Queue.Restore.{restore-IsValid}
use bin_range.Update.Queue.Duplicates.{duplicate_tag_unsaveable}
use bin_range.Tests.Data.{
  tag_seven, tag_seven_replaced, tag_eight, version_one, waiting_job, one_waiting, one_done,
}

empty-IsValid : IsValid (init 1)
unfolding init
empty-IsValid = ground arith

no_live_tag : has_live_tag 7 (init 1).jobs ≡ false
unfolding has_live_tag init
no_live_tag = refl

-- A job is queued and starts to wait.
abbrev pub first_queue : UpdateQueue
first_queue = (enqueue (init 1) tag_seven version_one 100).0

history_restorable_example :
    IsValid first_queue
    × (valid_restore (some (states first_queue.jobs)) (length first_queue.jobs) ≡ true)
history_restorable_example =
    history_restorable 1 {q = first_queue} (omega arith)
      (next here (enqueues tag_seven version_one 100 no_live_tag))

enqueue_keeps_live_example :
    get_elem? (enqueue one_waiting tag_eight version_one 200).0.jobs 0 ≡ some waiting_job
enqueue_keeps_live_example =
    enqueue_keeps_live one_waiting tag_eight version_one 200 0 waiting_job (omega arith) refl refl

enqueue_stores_example :
    ((job : UpdateJob) × (get_elem? (enqueue one_waiting tag_eight version_one 200).0.jobs 1
        ≡ some job)
      × Fresh 2 tag_eight version_one 200 job)
    × Slot one_waiting.jobs 1
unfolding enqueue valid_target valid_release hex_prefix hex_digit has_live_target same_target
    bytes_eq enqueue_slot
enqueue_stores_example = enqueue_stores one_waiting tag_eight version_one 200 1 (omega arith) refl

enqueue-Refuses_example :
    ((enqueue one_waiting tag_seven version_one 200).0 ≡ one_waiting)
    × Refuses one_waiting tag_seven version_one
unfolding enqueue valid_target valid_release hex_prefix hex_digit has_live_target same_target
    bytes_eq enqueue_slot
enqueue-Refuses_example = enqueue-Refuses one_waiting tag_seven version_one 200 (omega arith) refl

enqueue-IsValid_example : IsValid (enqueue (init 1) tag_seven version_one 100).0
enqueue-IsValid_example =
    enqueue-IsValid (init 1) tag_seven version_one 100 empty-IsValid no_live_tag

pub first_queue-IsValid : IsValid first_queue
first_queue-IsValid = enqueue-IsValid (init 1) tag_seven version_one 100 empty-IsValid no_live_tag

restart_keeps_jobs_example :
    ((restore one_done (some (states first_queue.jobs)) (length first_queue.jobs) 5).1 ≡ true)
    × RestartsAll 5 first_queue.jobs
        (restore one_done (some (states first_queue.jobs)) (length first_queue.jobs) 5).0.jobs
restart_keeps_jobs_example = restart_keeps_jobs first_queue one_done 5 first_queue-IsValid

restore-IsValid_example :
    (((restore one_waiting (some (states one_done.jobs)) 1 5).1 ≡ true)
      × IsValid (restore one_waiting (some (states one_done.jobs)) 1 5).0)
    ⊎ (((restore one_waiting (some (states one_done.jobs)) 1 5).1 ≡ false)
        × ((restore one_waiting (some (states one_done.jobs)) 1 5).0 ≡ one_waiting))
unfolding update_export_state
restore-IsValid_example = restore-IsValid one_waiting (states one_done.jobs) 1 5 (omega arith, tt)

duplicate_tag_unsaveable_example :
    valid_restore
      (some (states (enqueue one_waiting tag_seven_replaced version_one 200).0.jobs))
      (length (enqueue one_waiting tag_seven_replaced version_one 200).0.jobs)
    ≡ false
unfolding enqueue valid_target valid_release hex_prefix hex_digit has_live_target same_target
    bytes_eq enqueue_slot
duplicate_tag_unsaveable_example =
    duplicate_tag_unsaveable one_waiting tag_seven_replaced version_one 200 1 0 waiting_job
      (omega arith) refl refl refl refl
