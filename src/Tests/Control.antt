-- ===== src/Tests/Control.antt =====
-- A controller with one tag, its calls, and a reply of the tag in pieces.
use bin_range.Base.{
  ℕ, ◌+◌, ◌-◌, ◌*◌, ◌≤◌, ◌≡◌, true, false, refl, arith, List, [], ◌∷◌, ◌++◌, length, replicate,
  some,
}
use bin_range.Update.Queue.{restore, valid_restore, u32_max}
use bin_range.Update.Queue.Invariant.{IsValid, states}
use bin_range.Update.Snapshot.{UpdateSnapshot, UpdateAssociation, job_states}
use bin_range.Update.Storage.{no_snapshot}
use bin_range.Update.Smp.{
  reset, smp_accept_upload_offset, SmpUpload, number, blob, upload, upload_ok, smp_encode_request,
}
use bin_range.Update.Smp.Reply.{no_reply}
use bin_range.Update.Smp.Assembler.{payload_length, SmpAssembler, receiving, judge, feed}
use bin_range.Update.Smp.Pieces.{feed_pieces, pieces_at_once}
use bin_range.Update.Smp.Frames.{upload_fits}
use bin_range.Update.Smp.Numbers.{written_is_read}
use bin_range.Update.Smp.Reader.{read_number, slice}
use bin_range.Update.Smp.Progress.{all_accepted, upload_ends}
use bin_range.Update.Controller.{
  Ports, UpdateController, UpdateTransportCommand, UpdateTransportEvent, new_controller,
  event_connected, fail_transient, await_reply,
}
use bin_range.Update.Controller.Calls.{Call, cancels, loops, run}
use bin_range.Update.Controller.Calls.Sound.{
  Falls, AllDisconnect, run_ids_rise, run_disabled, run_keeps_queue,
}
use bin_range.Update.Controller.Calls.Loans.{OnlySaved, run_keeps_loan}
use bin_range.Tests.Data.{tag_seven, version_one}
use bin_range.Tests.Queues.{first_queue, first_queue-IsValid}

-- A storage that keeps its snapshot, and a transport that takes every command.
abbrev calm_ports : Ports UpdateSnapshot
calm_ports = record {
  begins = λ s q now.
      let (q', done) = restore q (some (job_states s.jobs)) (length s.jobs) now in (s, q', done);
  saves = λ s candidate. (candidate, true);
  saved = λ s. s;
  staged = λ s. some version_one;
  acquires = λ s wanted. (s, some (replicate 4096 0));
  releases = λ s. s;
  capacity = λ s. 212992;
  accepts = λ log command. true;
}

abbrev paired_tag : UpdateAssociation
paired_tag = record { target = tag_seven; address = 192 ∷ 1 ∷ 2 ∷ 3 ∷ 4 ∷ 5 ∷ []; address_type = 1 }

abbrev ready_controller : UpdateController UpdateSnapshot
ready_controller = record (new_controller no_snapshot true true) {
  begun = true;
  ready = true;
  associations = paired_tag ∷ [];
  queue = first_queue;
}

abbrev disabled_controller : UpdateController UpdateSnapshot
disabled_controller = record ready_controller {
  disabled = true;
  active_job_id = 1;
  operation = 4;
  session = 1;
}

abbrev lent_controller : UpdateController UpdateSnapshot
lent_controller = record ready_controller {
  active_job_id = 1;
  operation = 4;
  session = 1;
  await = await_reply;
  stage_borrowed = true;
  stage_bytes = some (replicate 4096 0);
}

abbrev connected : UpdateTransportEvent
connected = record {
  kind = event_connected;
  operation = 1;
  session = 1;
  bonded_mitm_sc = false;
  reply = no_reply;
  failure = fail_transient;
}

-- The waiting job is started, the link comes up, the job is cancelled.
abbrev session_calls : List Call
session_calls = loops [] 200 ∷ loops (connected ∷ []) 210 ∷ cancels 1 220 ∷ loops [] 40000 ∷ []

run_ids_rise_example :
    (sent : List UpdateTransportCommand) × ((run calm_ports session_calls ready_controller).log
      ≡ sent ++ [])
    × Falls 0 (run calm_ports session_calls ready_controller).operation sent
    × ((run calm_ports session_calls ready_controller).operation ≤ u32_max)
run_ids_rise_example = run_ids_rise calm_ports session_calls ready_controller (omega arith)

run_disabled_example :
    ((run calm_ports session_calls disabled_controller).disabled ≡ true)
    × ((sent : List UpdateTransportCommand) × ((run calm_ports session_calls
            disabled_controller).log
          ≡ sent ++ [])
        × AllDisconnect sent)
run_disabled_example = run_disabled calm_ports session_calls disabled_controller refl

run_keeps_queue_example :
    IsValid (run calm_ports session_calls ready_controller).queue
    × (valid_restore
          (some (states (run calm_ports session_calls ready_controller).queue.jobs))
          (length (run calm_ports session_calls ready_controller).queue.jobs)
        ≡ true)
run_keeps_queue_example =
    run_keeps_queue calm_ports session_calls ready_controller first_queue-IsValid

run_keeps_loan_example :
    ((run calm_ports session_calls lent_controller).stage_borrowed ≡ true)
    × ((run calm_ports session_calls lent_controller).stage_bytes ≡ some (replicate 4096 0))
    × OnlySaved calm_ports no_snapshot (run calm_ports session_calls lent_controller).storage
run_keeps_loan_example =
    run_keeps_loan calm_ports session_calls lent_controller refl (tt, ((refl, tt), (tt, tt)))

upload_ends_example : length {A = ℕ} (256 ∷ 256 ∷ 512 ∷ []) ≤ 3 * (4096 - 0) + (3 - 0)
unfolding all_accepted smp_accept_upload_offset
upload_ends_example = upload_ends 4096 0 0 (256 ∷ 256 ∷ 512 ∷ []) (omega arith) refl

abbrev listening : SmpAssembler
listening = record {
  state = receiving;
  command = reset;
  sequence = 7;
  buffer = [];
  stored = no_reply;
}

pieces_at_once_example :
    feed_pieces listening ((3 ∷ 0 ∷ 0 ∷ []) ∷ (1 ∷ 0 ∷ 0 ∷ 7 ∷ []) ∷ []) (5 ∷ 160 ∷ [])
    ≡ feed listening (some (3 ∷ 0 ∷ 0 ∷ 1 ∷ 0 ∷ 0 ∷ 7 ∷ 5 ∷ 160 ∷ []))
unfolding feed judge
pieces_at_once_example =
    pieces_at_once listening ((3 ∷ 0 ∷ 0 ∷ []) ∷ (1 ∷ 0 ∷ 0 ∷ 7 ∷ []) ∷ []) (5 ∷ 160 ∷ [])
      (refl, (refl, tt))

-- The first chunk of an image.
abbrev first_chunk : SmpUpload
first_chunk = record {
  offset = 0;
  total = 4096;
  file_sha = some (replicate 32 1);
  bytes = some (replicate 4096 2);
  size = 256;
}

upload_fits_example :
    (frame : List ℕ) × (smp_encode_request upload 9 (some first_chunk) 512 ≡ some frame)
    × (length frame ≤ 357)
    × (payload_length frame + 8 ≡ length frame)
unfolding upload_ok
upload_fits_example = upload_fits 9 first_chunk refl

written_is_read_example :
    (read_number 65535 (number 0 300 ++ (7 ∷ [])) ≡ some (300, 7 ∷ []))
    × (slice 2 (blob 2 (1 ∷ 2 ∷ 3 ∷ []) ++ (7 ∷ [])) ≡ some (1 ∷ 2 ∷ 3 ∷ [], 7 ∷ []))
written_is_read_example =
    written_is_read 65535 300 (1 ∷ 2 ∷ 3 ∷ []) (7 ∷ []) (omega arith) (omega arith) (omega arith)
