-- ===== src/Update/Queue/Invariant.antt =====
-- What holds of an update queue between two calls, and that every call keeps it.
use bin_range.Base.{
  ℕ, ◌≤◌, ◌<◌, ◌≡◌, inl, inr, Bool, true, false, refl, ap, arith, List, [], ◌∷◌, length, suc, zero,
  map, Bool-cases,
}
use bin_range.Update.Job.{UpdateJob, update_terminal}
use bin_range.Update.Job.Ops.{Op, apply, apply-IsSame, terminal-apply}
use bin_range.Update.Queue.{
  UpdateJobState, UpdateQueue, clash, clashes, update_export_state, modify, u32_max,
}
use bin_range.Update.Queue.Entries.{AllValid, Distinct, clash_comm}
use bin_range.Update.Queue.Validity.{apply-IsValidJob}

abbrev pub states : List UpdateJob → List UpdateJobState
states = map update_export_state

-- Every ID is below `n`.
abbrev pub AllBelow : ℕ → List UpdateJob → Type 0
AllBelow n [] = Unit {0}
AllBelow n (job ∷ jobs) = (job.id < n) × AllBelow n jobs

pub record IsValid (q : UpdateQueue) : Type 0 where
  pub bounded : length q.jobs ≤ 16
  pub valid : AllValid (states q.jobs)
  pub distinct : Distinct (states q.jobs)
  pub fresh : q.id_exhausted ≡ false → AllBelow q.next_id q.jobs
  pub next_pos : q.id_exhausted ≡ false → 0 < q.next_id
  pub next_max : q.next_id ≤ u32_max

-- A call through a pointer to a slot.
abbrev pub apply_at : UpdateQueue → ℕ → Op → ℕ → UpdateQueue
apply_at q slot op now = record q { jobs = modify (λ job. (apply op now job).0) q.jobs slot }

module _ (op : Op) (now : ℕ) where
  abbrev after : UpdateJob → UpdateJob
  after job = (apply op now job).0

  terminal-after : (job : UpdateJob) → update_terminal job.phase ≡ true → after job ≡ job
  terminal-after job h = ap (λ (r : UpdateJob × Bool). r.0) (terminal-apply op now job h)

  -- A call makes no new clash: the ID and the tag stay, and no finished job comes back to life.
  clash-after :
      (job : UpdateJob) (t : UpdateJobState)
      → clash (update_export_state job) t ≡ false
      → clash (update_export_state (after job)) t ≡ false
  unfolding clash update_export_state
  clash-after job t h = elim (Bool-cases (update_terminal job.phase)) [
    | inl e ↦ rw (terminal-after job e) h
    | inr e ↦ ground (arith, apply-IsSame op now job)
  ]

  length-modify : (jobs : List UpdateJob) (i : ℕ) → length (modify after jobs i) ≡ length jobs
  length-modify [] i = refl
  length-modify (job ∷ jobs) zero = refl
  length-modify (job ∷ jobs) (suc i) = ap suc (length-modify jobs i)

  AllValid-modify :
      (jobs : List UpdateJob) (i : ℕ)
      → AllValid (states jobs)
      → AllValid (states (modify after jobs i))
  AllValid-modify [] i v = tt
  AllValid-modify (job ∷ jobs) zero v = (apply-IsValidJob op now job v.0, v.1)
  AllValid-modify (job ∷ jobs) (suc i) v = (v.0, AllValid-modify jobs i v.1)

  clashes-after :
      (job : UpdateJob) (ts : List UpdateJobState)
      → clashes (update_export_state job) ts ≡ false
      → clashes (update_export_state (after job)) ts ≡ false
  unfolding clashes
  clashes-after job [] h = refl
  clashes-after job (t ∷ ts) h = ground (arith, clash-after job t, clashes-after job ts)

  clashes-modify :
      (s : UpdateJobState) (jobs : List UpdateJob) (i : ℕ)
      → clashes s (states jobs) ≡ false
      → clashes s (states (modify after jobs i)) ≡ false
  unfolding clashes
  clashes-modify s [] i h = refl
  clashes-modify s (job ∷ jobs) zero h = ground (
    arith,
    clash-after job s,
    clash_comm s (update_export_state job),
    clash_comm s (update_export_state (after job)),
  )
  clashes-modify s (job ∷ jobs) (suc i) h = ground (arith, clashes-modify s jobs i)

  Distinct-modify :
      (jobs : List UpdateJob) (i : ℕ)
      → Distinct (states jobs)
      → Distinct (states (modify after jobs i))
  Distinct-modify [] i d = tt
  Distinct-modify (job ∷ jobs) zero d = (clashes-after job (states jobs) d.0, d.1)
  Distinct-modify (job ∷ jobs) (suc i) d =
      (clashes-modify (update_export_state job) jobs i d.0, Distinct-modify jobs i d.1)

  AllBelow-modify :
      (n : ℕ) (jobs : List UpdateJob) (i : ℕ) → AllBelow n jobs → AllBelow n (modify after jobs i)
  AllBelow-modify n [] i b = tt
  AllBelow-modify n (job ∷ jobs) zero b = (ground (arith, apply-IsSame op now job, b.0), b.1)
  AllBelow-modify n (job ∷ jobs) (suc i) b = (b.0, AllBelow-modify n jobs i b.1)

  -- Every policy helper, on any slot, keeps the queue valid.
  pub apply_at-IsValid : (q : UpdateQueue) (slot : ℕ) → IsValid q → IsValid (apply_at q slot op now)
  apply_at-IsValid q slot v = record {
    bounded = omega (arith, length-modify q.jobs slot, v.bounded);
    valid = AllValid-modify q.jobs slot v.valid;
    distinct = Distinct-modify q.jobs slot v.distinct;
    fresh = λ e. AllBelow-modify q.next_id q.jobs slot (v.fresh e);
    next_pos = v.next_pos;
    next_max = v.next_max;
  }
