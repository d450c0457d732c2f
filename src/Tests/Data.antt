-- ===== src/Tests/Data.antt =====
-- Targets, releases, jobs and queues for the tests of firmware/anchor/src/core.
use bin_range.Base.{true, false, [], ◌∷◌, ◌++◌, replicate}
use bin_range.Update.Job.{
  UpdateTarget, UpdateRelease, UpdateJob, queued, rebooting, successful, error_size,
}
use bin_range.Update.Queue.{UpdateQueue}

abbrev pub tag_seven : UpdateTarget
tag_seven = record { tag = 7; hardware_id = replicate 16 97 ++ 0 ∷ [] }

-- The same tag with other hardware.
abbrev pub tag_seven_replaced : UpdateTarget
tag_seven_replaced = record { tag = 7; hardware_id = replicate 16 98 ++ 0 ∷ [] }

abbrev pub tag_eight : UpdateTarget
tag_eight = record { tag = 8; hardware_id = replicate 16 99 ++ 0 ∷ [] }

abbrev pub version_one : UpdateRelease
version_one = record {
  size = 4096;
  file_sha = replicate 32 1;
  image_hash = replicate 32 2;
  version = 49 ∷ replicate 23 0;
}

abbrev pub waiting_job : UpdateJob
waiting_job = record {
  id = 1;
  target = tag_seven;
  release = version_one;
  phase = queued;
  acknowledged = 0;
  attempts = 0;
  changed_ms = 100;
  error = replicate error_size 0;
  trial_may_be_armed = false;
}

abbrev pub armed_job : UpdateJob
armed_job = record waiting_job { phase = rebooting; attempts = 1; trial_may_be_armed = true }

abbrev pub done_job : UpdateJob
done_job = record armed_job { phase = successful; acknowledged = 4096 }

abbrev pub one_waiting : UpdateQueue
one_waiting = record { jobs = waiting_job ∷ []; next_id = 2; id_exhausted = false }

abbrev pub one_done : UpdateQueue
one_done = record { jobs = done_job ∷ []; next_id = 2; id_exhausted = false }
