-- ===== src/Lib.antt =====
-- BinRange anchor: the core of firmware/anchor/src/core.
--
-- An anchor measures the distance to tags on bins, and updates their firmware over BLE. Its core is
-- plain C++ without Arduino: the policy of an update job and the queue of sixteen jobs
-- (update_job.h, update_job.cpp), the saved form of that queue (update_snapshot.h,
-- update_snapshot.cpp), the parser of an image (update_image.h, update_image.cpp), the storage of
-- snapshots and of the staged image (update_storage.h, update_storage.cpp), the SMP messages to a
-- tag (smp_codec.h, smp_codec.cpp), the controller that runs jobs, commissioning and motion
-- settings over one BLE session at a time (update_controller.h, update_controller.cpp,
-- motion_controller.cpp), the registry of the
-- tags heard or adopted (registry.h, registry.cpp, tagstats.h, tagstats.cpp), when a tag counts as
-- stale or absent (freshness.cpp), what a ranging frame may carry (ranging_frame.h), and the guards
-- of the admin pages: text checks, rate limit, request gate and upload session (admin_policy.h,
-- admin_policy.cpp), and the loading of their password (admin_credentials.h,
-- admin_credentials.cpp).
--
-- How the parts meet: the update controller enqueues jobs and calls the policy helpers on them; a
-- checkpoint exports the jobs, joins them to the associations of tags with BLE addresses and
-- encodes the whole; after a reboot the decoder gives the snapshot back and the queue restores it,
-- which no saved upload survives as an upload. Each command of the controller goes to the transport
-- under a new operation ID, and only an event with the last ID and session is heard; the storage
-- lends it the image of an upload until the link is known to be closed. The ranging side touches a tag of the registry for
-- each frame, and freshness judges the tag from the times that this leaves. Each web request passes
-- the gate, and an upload runs in a session that pauses the radio and must resume it.
--
-- Files:
--   Base          native numbers, lists, bytes and 32-bit words shared by all
--   Update/Job    one job: the phases, the transition table, the policy helpers
--     Edges, Ops, Trial, Attempts
--   Update/Queue  `UpdateQueue`: enqueue, find, export, restore
--     Entries, Validity, Invariant, Slots, Enqueue, Admission, Restore, Restart, History,
--     Duplicates
--   Update/Snapshot  `update_snapshot_encode` and `update_snapshot_decode`
--     Fields, Text, Records, Canonical, RoundTrip
--   Update/Image  `parse_update_image` and `validate_release`
--     Walk, Entries
--   Update/Storage  `UpdateStorage`: recovery, checkpoints and the staging buffer
--     Staged
--   Update/Smp    requests, motion settings and the offset policy of smp_codec.cpp
--     Reader (CBOR), Reply, Assembler; Pieces, Progress, Frames,
--     Numbers
--   Update/Controller  `UpdateController`: its state and queries
--     Link (checkpoint, submit, close), Jobs, Pairing, Motion, Events, Loop, Requests;
--     Core and its children: a relation that the basic steps obey holds of each call;
--     Calls: any order of calls, with Sends, Sound, Loans
--   Tags/Registry `Registry`, `TagRecord`, `TagStats` but for the summary
--     Lookup, Map, Changes
--   Tags/Freshness  `tag_freshness`, `reception_epoch`
--   Tags/Frame    frame lengths and `ranging_tip_telemetry`
--   Tags/Topics   the configuration topic of a tag (topics.cpp)
--   Admin/Text    password, constant-time comparison, Host and Origin
--   Admin/Gate    `AdminRateLimit`, `AdminRequestGate`
--   Admin/Upload  `AdminUploadSession`
--   Admin/Credentials  load and store of the admin password
--     Safe
--   Tests         concrete runs
--
-- How the code is read. A function that changes an object through a pointer or a reference returns
-- the new object, beside its result if it has one. A null pointer is `none`. An array with a count
-- is the list of its used part; a char array is the list of its bytes. Unsigned numbers are natural
-- numbers, and where the code relies on their wrapping (`millis()`, the CRC, `stale_after_s *
-- 1000`) or must prevent it (operation and session IDs) the remainder is written out; where it relies on a value fitting its type, the theorem
-- says so. A float is only stored here, and is its bit pattern. The phases have one more
-- constructor for the bytes that a cast can make and the enum does not name. The interfaces
-- `AdminUploadIo`, `AdminCredentialIo` and `UpdateStorageBackend`, with its SHA-256, are parameters
-- whose answers may depend on every call made so far. `UpdateControllerStorage` is a record of
-- operations on a state of its own; of `UpdateControllerTransport` the answers of `submit` are a
-- parameter, and the events that `poll` gives are an argument of `loop`.
--
-- Every loop is structural recursion on a list or a count, but for the walk over the entries of an
-- image (update_image.cpp), which is given as many rounds as the area has bytes, and each round
-- takes four of them; for printing a decimal, which is given the ten digits of a 32-bit number; and
-- in smp_codec.cpp for UTF-8, given a round for each byte, for the entries of a CBOR container, given
-- a round for each byte left and one to end, and for `skip`, given the eight levels and the 64 entries
-- that the code allows.
--
-- Not modelled: the manifest parser, the Digest header syntax, the JSON and discovery text,
-- floating-point summaries, and everything that touches a radio, a web server, MQTT or flash.
pub mod Base
pub mod Update
pub mod Tags
pub mod Admin
pub mod Tests
