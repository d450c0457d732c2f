-- ===== src/Admin/Upload/Session.antt =====
-- Whatever a request does, its end leaves no pause of the radio behind that nobody answers for,
-- and no image is selected but a whole one.
use bin_range.Base.{
  ℕ, ◌+◌, ◌≡◌, ◌≢◌, Bool, true, false, refl, arith, List, [], ◌∷◌, ◌||◌, some, none, Option,
}
use bin_range.Admin.Upload.{
  Event, suspend, resume, begin, write, finish, AdminUploadIo, AdminUploadSession, new_session,
  fail, start, write_chunk, end, finalize, clear,
}

-- Whether the calls so far, the latest first, leave the radio paused by the session: a granted
-- suspension neither resumed nor handed over by a granted finish.
unfoldable pub paused : List Event → Bool
paused [] = false
paused (suspend true ∷ log) = true
paused (resume ∷ log) = false
paused (finish true ∷ log) = false
paused (e ∷ log) = paused log

-- The bytes written since a granted begin, if every write since was granted and nothing else was
-- called.
unfoldable pub uploaded : List Event → Option ℕ
uploaded [] = none
uploaded (begin true ∷ log) = some 0
uploaded (write n true ∷ log) = elim (uploaded log) [ none ↦ none | some m ↦ some (m + n) ]
uploaded (e ∷ log) = none

pub record IsValid (s : AdminUploadSession) : Type 0 where
  pub pause : s.suspended ≡ paused s.log
  pub open_suspended : s.active || s.file_ended ≡ true → s.suspended ≡ true
  pub suspended_open : s.suspended ≡ true → s.active || s.file_ended ≡ true
  pub failed_closed : s.failed ≡ true → s.suspended ≡ false
  pub finalized_closed : s.finalized ≡ true → s.suspended ≡ false
  pub whole : s.active || s.file_ended ≡ true → uploaded s.log ≡ some s.bytes
  pub ended_nonempty : s.file_ended ≡ true → s.bytes ≢ 0
  pub idle_empty : s.suspended ≡ false → s.failed ≡ false → s.finalized ≡ false → s.bytes ≡ 0

-- A call of the session in one request.
pub data Call : Type 0 where
  starts ends finalizes : Bool → ℕ → Call
  writes : Bool → Option (List ℕ) → ℕ → ℕ → Call
  aborts : Call

end-IsValid :
    (s : AdminUploadSession) (authorized : Bool) (now : ℕ)
    → IsValid s
    → IsValid (end s authorized now).0
unfolding end paused uploaded
end-IsValid s authorized now v = ground arith

fail-IsValid : (s : AdminUploadSession) → IsValid s → IsValid (fail s)
unfolding fail paused uploaded
fail-IsValid s v = ground arith

clear-IsValid : (s : AdminUploadSession) → IsValid s → IsValid (clear s)
unfolding clear paused uploaded
clear-IsValid s v = ground arith

module _ (io : AdminUploadIo) where
  unfoldable pub apply : Call → AdminUploadSession → AdminUploadSession
  apply (starts authorized now) s = (start io s authorized now).0
  apply (ends authorized now) s = (end s authorized now).0
  apply (finalizes authorized now) s = (finalize io s authorized now).0
  apply (writes authorized bytes count now) s = (write_chunk io s authorized bytes count now).0
  apply aborts s = fail s

  unfoldable pub run : List Call → AdminUploadSession → AdminUploadSession
  run [] s = s
  run (c ∷ cs) s = run cs (apply c s)

  start-IsValid :
      (s : AdminUploadSession) (authorized : Bool) (now : ℕ)
      → IsValid s
      → IsValid (start io s authorized now).0
  unfolding start paused uploaded
  start-IsValid s authorized now v = ground arith

  write_chunk-IsValid :
      (s : AdminUploadSession) (authorized : Bool) (bytes : Option (List ℕ)) (count now : ℕ)
      → IsValid s
      → IsValid (write_chunk io s authorized bytes count now).0
  unfolding write_chunk paused uploaded
  write_chunk-IsValid s authorized none count now v = ground arith
  write_chunk-IsValid s authorized (some b) count now v = ground arith

  finalize-IsValid :
      (s : AdminUploadSession) (authorized : Bool) (now : ℕ)
      → IsValid s
      → IsValid (finalize io s authorized now).0
  unfolding finalize paused uploaded
  finalize-IsValid s authorized now v = ground arith

  apply-IsValid : (c : Call) (s : AdminUploadSession) → IsValid s → IsValid (apply c s)
  unfolding apply
  apply-IsValid (starts authorized now) s v = start-IsValid s authorized now v
  apply-IsValid (ends authorized now) s v = end-IsValid s authorized now v
  apply-IsValid (finalizes authorized now) s v = finalize-IsValid s authorized now v
  apply-IsValid (writes authorized bytes count now) s v =
      write_chunk-IsValid s authorized bytes count now v
  apply-IsValid aborts s v = fail-IsValid s v

  pub run-IsValid : (cs : List Call) (s : AdminUploadSession) → IsValid s → IsValid (run cs s)
  unfolding run
  run-IsValid [] s v = v
  run-IsValid (c ∷ cs) s v = run-IsValid cs (apply c s) (apply-IsValid c s v)

  -- However the callbacks of a request come, authorised or not, in any order and cut off at any
  -- point, at the end of its scope the radio is not left paused by the session, unless a granted
  -- finish handed the restart over; and the session is as new.
  pub scope_resumes :
      (cs : List Call) (s : AdminUploadSession)
      → IsValid s
      → let after = clear (run cs (clear s)) in
        (paused after.log ≡ false) × (after ≡ record new_session { log = after.log })
  unfolding clear fail paused
  scope_resumes cs s v = let v' = run-IsValid cs (clear s) (clear-IsValid s v) in ground arith

  -- The calls of several requests, each of them ended by its `clear`.
  unfoldable pub serve : List (List Call) → AdminUploadSession → AdminUploadSession
  serve [] s = s
  serve (request ∷ requests) s = serve requests (clear (run request s))

  serve-IsValid :
      (requests : List (List Call)) (s : AdminUploadSession)
      → IsValid s
      → IsValid (serve requests s)
  unfolding serve
  serve-IsValid [] s v = v
  serve-IsValid (request ∷ requests) s v =
      serve-IsValid requests (clear (run request s))
        (clear-IsValid (run request s) (run-IsValid request s v))

  new_session-IsValid : IsValid new_session
  unfolding paused uploaded
  new_session-IsValid = ground arith

  -- Whatever calls earlier requests and this one made of a new session, `finalize` reports success
  -- only for a whole upload: since a granted begin nothing but granted writes was called, of one
  -- byte at least in all and as many as the session has counted, and its own finish was granted.
  pub finalize_whole :
      (requests : List (List Call)) (calls : List Call) (authorized : Bool) (now : ℕ)
      → (finalize io (run calls (serve requests new_session)) authorized now).1 ≡ true
      → let s = run calls (serve requests new_session) in
        (authorized ≡ true)
        × ((count : ℕ) × (uploaded s.log ≡ some count) × (s.bytes ≡ count) × (count ≢ 0))
        × ((finalize io s authorized now).0.log ≡ finish true ∷ s.log)
  unfolding finalize
  finalize_whole requests calls authorized now h =
      let s = run calls (serve requests new_session) in
      let v : IsValid s =
        run-IsValid calls (serve requests new_session)
          (serve-IsValid requests new_session new_session-IsValid) in
      (ground arith, (s.bytes, ground arith, refl, ground arith), ground arith)
