-- ===== src/Update/Queue/Slots.antt =====
-- The slot that `UpdateQueue::enqueue` takes: the end of the array, or in a full one the terminal
-- job that changed first.
use bin_range.Base.{
  ℕ, ◌+◌, ◌≤◌, ◌<◌, ◌≡◌, ◌≢◌, ◌⊎◌, inl, inr, true, false, refl, ap, arith, List, [], ◌∷◌, Option,
  some, none, length, suc, zero, ◌==◌, get_elem?, Bool-cases, Option-cases,
}
use bin_range.Update.Job.{UpdateJob, update_terminal}
use bin_range.Update.Queue.{enqueue_slot, put, oldest_terminal, better}

-- No terminal job changed before `oldest`.
abbrev pub Oldest : ℕ → List UpdateJob → Type 0
Oldest oldest [] = Unit {0}
Oldest oldest (job ∷ jobs) =
    (update_terminal job.phase ≡ true → oldest ≤ job.changed_ms) × Oldest oldest jobs

abbrev pub AllLive : List UpdateJob → Type 0
AllLive [] = Unit {0}
AllLive (job ∷ jobs) = (update_terminal job.phase ≡ false) × AllLive jobs

abbrev AtMost : ℕ → Option (ℕ × ℕ) → Type 0
AtMost oldest none = Unit {0}
AtMost oldest (some (before, slot)) = oldest ≤ before

-- The slot holds a terminal job of this time.
abbrev pub Ended : List UpdateJob → ℕ → ℕ → Type 0
Ended jobs slot oldest =
    (job : UpdateJob) × (get_elem? jobs slot ≡ some job)
    × (update_terminal job.phase ≡ true)
    × (job.changed_ms ≡ oldest)

oldest_terminal-none :
    (i : ℕ) (best : Option (ℕ × ℕ)) (jobs : List UpdateJob)
    → oldest_terminal i best jobs ≡ none
    → (best ≡ none) × AllLive jobs
unfolding oldest_terminal
oldest_terminal-none i best [] h = (h, tt)
oldest_terminal-none i none (job ∷ jobs) h =
    ground (arith, oldest_terminal-none (i + 1) (better job i none) jobs h)
oldest_terminal-none i (some (o, s)) (job ∷ jobs) h =
    ground (arith, oldest_terminal-none (i + 1) (better job i (some (o, s))) jobs h)

AtMost-better :
    (x i : ℕ) (job : UpdateJob) (best : Option (ℕ × ℕ))
    → AtMost x (better job i best)
    → (update_terminal job.phase ≡ true → x ≤ job.changed_ms) × AtMost x best
AtMost-better x i job none h = (λ e. ground arith, tt)
AtMost-better x i job (some (o, s)) h = (λ e. ground arith, ground arith)

better-some :
    (i oldest slot : ℕ) (job : UpdateJob) (best : Option (ℕ × ℕ))
    → better job i best ≡ some (oldest, slot)
    → (best ≡ some (oldest, slot))
      ⊎ ((update_terminal job.phase ≡ true) × (job.changed_ms ≡ oldest) × (slot ≡ i))
better-some i oldest slot job none h = ground arith
better-some i oldest slot job (some (o, s)) h = ground arith

oldest_terminal-some :
    (i : ℕ) (best : Option (ℕ × ℕ)) (jobs : List UpdateJob) (oldest slot : ℕ)
    → oldest_terminal i best jobs ≡ some (oldest, slot)
    → Oldest oldest jobs
      × AtMost oldest best
      × ((best ≡ some (oldest, slot)) ⊎ ((k : ℕ) × (slot ≡ i + k) × Ended jobs k oldest))
unfolding oldest_terminal
oldest_terminal-some i best [] oldest slot h = (tt, bound best h, inl h)
  where
    bound : (b : Option (ℕ × ℕ)) → b ≡ some (oldest, slot) → AtMost oldest b
    bound none e = tt
    bound (some (o, s)) e = ground arith
oldest_terminal-some i best (job ∷ jobs) oldest slot h =
    let (a, b, c) = oldest_terminal-some (i + 1) (better job i best) jobs oldest slot h in
    let (first, most) = AtMost-better oldest i job best b in
    (
      (first, a),
      most,
      elim c [
        | inl e ↦ elim (better-some i oldest slot job best e) [
          | inl old ↦ inl old
          | inr (ended, at, here) ↦ inr (0, omega arith, (job, refl, ended, at))
        ]
        | inr (k, at, ended) ↦ inr (suc k, omega arith, ended)
      ],
    )

-- Where the new job goes.
pub data Slot (jobs : List UpdateJob) (slot : ℕ) : Type 0 where
  at_end : length jobs < 16 → slot ≡ length jobs → Slot jobs slot
  replaces :
      (oldest : ℕ) → length jobs ≡ 16 → Ended jobs slot oldest → Oldest oldest jobs → Slot jobs slot

pub enqueue_slot-none :
    (jobs : List UpdateJob) → enqueue_slot jobs ≡ none → (length jobs ≡ 16) × AllLive jobs
unfolding enqueue_slot
enqueue_slot-none jobs h = elim (Option-cases (oldest_terminal 0 none jobs)) [
  | inl e ↦ (ground arith, (oldest_terminal-none 0 none jobs e).1)
  | inr ((o, s), e) ↦ absurd (ground arith)
]

pub enqueue_slot-some :
    (jobs : List UpdateJob) (slot : ℕ)
    → length jobs ≤ 16
    → enqueue_slot jobs ≡ some slot
    → Slot jobs slot
unfolding enqueue_slot
enqueue_slot-some jobs slot b h = elim (Bool-cases (length jobs == 16)) [
  | inr e ↦ at_end (ground arith) (ground arith)
  | inl e ↦ elim (Option-cases (oldest_terminal 0 none jobs)) [
    | inl e' ↦ absurd (ground arith)
    | inr ((o, s), e') ↦
        let (least, _, found) = oldest_terminal-some 0 none jobs o s e' in
        elim found [
          | inl bad ↦ absurd (ground arith)
          | inr (k, at, ended) ↦
              let same : slot ≡ k = ground arith in replaces o (ground arith) (rw same ended) least
        ]
  ]
]

pub get_elem?-lt :
    (jobs : List UpdateJob) (slot : ℕ) {job : UpdateJob}
    → get_elem? jobs slot ≡ some job
    → slot < length jobs
get_elem?-lt [] slot h = cc
get_elem?-lt (x ∷ jobs) zero h = omega arith
get_elem?-lt (x ∷ jobs) (suc slot) h = omega (arith, get_elem?-lt jobs slot h)

pub Slot-le : {jobs : List UpdateJob} {slot : ℕ} → Slot jobs slot → slot ≤ length jobs
Slot-le (at_end h e) = omega arith
Slot-le {jobs} {slot} (replaces o h (job, e, _, _) l) = omega (arith, get_elem?-lt jobs slot e)

pub get_elem?-put_self :
    (jobs : List UpdateJob) (slot : ℕ) (job : UpdateJob)
    → slot ≤ length jobs
    → get_elem? (put jobs slot job) slot ≡ some job
unfolding put
get_elem?-put_self [] zero job h = refl
get_elem?-put_self [] (suc slot) job h = absurd (omega arith)
get_elem?-put_self (x ∷ jobs) zero job h = refl
get_elem?-put_self (x ∷ jobs) (suc slot) job h = get_elem?-put_self jobs slot job (omega arith)

pub get_elem?-put_ne :
    (jobs : List UpdateJob) (slot i : ℕ) (job other : UpdateJob)
    → i ≢ slot
    → get_elem? jobs i ≡ some other
    → get_elem? (put jobs slot job) i ≡ some other
unfolding put
get_elem?-put_ne [] slot i job other n h = cc
get_elem?-put_ne (x ∷ jobs) zero zero job other n h = absurd (n refl)
get_elem?-put_ne (x ∷ jobs) zero (suc i) job other n h = h
get_elem?-put_ne (x ∷ jobs) (suc slot) zero job other n h = h
get_elem?-put_ne (x ∷ jobs) (suc slot) (suc i) job other n h =
    get_elem?-put_ne jobs slot i job other (λ e. n (ap suc e)) h
