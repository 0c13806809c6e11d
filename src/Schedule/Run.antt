-- ===== src/Schedule/Run.antt =====
-- `schedule`: its rounds come to an end and keep the list in order; which jobs they reach.
pub mod Fairness
pub mod Timer
use mathlib.Core.Path.{subst}
use highwire.Common.{
  ℕ, zero, suc, ◌+◌, ◌-◌, ◌%◌, ◌^◌, ◌≤◌, ◌<◌, Bool, true, false, List, [], ◌∷◌, ◌++◌, none, some,
  ◌≡◌, ◌≢◌, refl, sym, ap, ◌∙◌, inl, inr, ◌⊎◌, arith, length, ◌==◌, if◌then◌else◌, Bool-cases,
  ◌>>=◌,
}
use highwire.Common.Int.{ℤ, pos, negsuc, ltb_ℤ, ◌≤ℤ◌}
use highwire.Schedule.{
  Job, Sched, Runner, sort_in, count_up, count_down, start_job, settle, enqueue, aged, perform,
  schedule, is_empty, control_if_empty, decrement, is_zero, limit_of, last_priority,
}
use highwire.Schedule.Nodes.{IsFresh, IsDistinct, IsCounted, length-middle}
use highwire.Schedule.Queue.Walks.{Inserted}
use highwire.Schedule.Queue.{sort_in-Inserted}

-- The list holds each node once, and `__cnt` is their number.
pub record IsSound {W : Type 0} (s : Sched W) : Type 0 where
  pub distinct : IsDistinct s.queue
  pub counted : IsCounted s

pub IsSound-of :
    {W : Type 0} (s t : Sched W) → t.queue ≡ s.queue → t.count ≡ s.count → IsSound s → IsSound t
IsSound-of s t q c v = record {
  distinct = subst IsDistinct (sym q) v.distinct;
  counted = ground (arith, q, c, v.counted);
}

IsFresh-insert :
    (a : ℕ) (front : List Job) (job : Job) (back : List Job)
    → job.addr ≢ a
    → IsFresh a (front ++ back)
    → IsFresh a (front ++ job ∷ back)
IsFresh-insert a [] job back e h = (e, h)
IsFresh-insert a (q ∷ front) job back e h = (h.0, IsFresh-insert a front job back e h.1)

IsDistinct-insert :
    (front : List Job) (job : Job) (back : List Job)
    → IsFresh job.addr (front ++ back)
    → IsDistinct (front ++ back)
    → IsDistinct (front ++ job ∷ back)
IsDistinct-insert [] job back f d = (f, d)
IsDistinct-insert (q ∷ front) job back f d = (
  IsFresh-insert q.addr front job back (λ e. f.0 (sym e)) d.0,
  IsDistinct-insert front job back f.1 d.1,
)

-- `sort_in` on the statics cannot fail, and keeps them sound for a node that is not in the list.
pub enqueue-IsSound :
    {W : Type 0} (job : Job) (order : Bool) (s : Sched W)
    → IsSound s
    → IsFresh job.addr s.queue
    → (after : Sched W) × (enqueue job order s ≡ some after) × IsSound after
enqueue-IsSound job order s v f =
    let (queue', e, i) = sort_in-Inserted job order s.queue in
    let after = record s { queue = queue'; count = count_up s.count } in
    (
      after,
      rw e,
      record {
        distinct = rw i.now (
            IsDistinct-insert i.front job i.back (subst (IsFresh job.addr) i.was f)
              (subst IsDistinct i.was v.distinct));
        counted =
            ground (
              arith,
              v.counted,
              ap length i.now,
              ap length i.was,
              length-middle i.front job i.back,
            );
      },
    )

-- What `schedule` relies on: a job returns, and leaves the list sound and its own node out of it.
pub record IsSafe {W : Type 0} (run : Runner W) : Type 0 where
  pub returns :
      (job : Job) (s : Sched W)
      → IsSound s
      → IsFresh job.addr s.queue
      → (r : ℤ) × (t : Sched W) × (run job 0 s ≡ some (r, t)) × IsSound t × IsFresh job.addr t.queue

module _ {W : Type 0} (run : Runner W) (safe : IsSafe run) where
  settle-IsSound :
      (r : ℤ) (job : Job) (s : Sched W)
      → IsSound s
      → IsFresh job.addr s.queue
      → (after : Sched W) × (settle run r job s ≡ some after) × IsSound after
  unfolding settle
  settle-IsSound (pos zero) job s v f = (s, refl, v)
  settle-IsSound (pos (suc n)) job s v f = enqueue-IsSound job true s v f
  settle-IsSound (negsuc zero) job s v f = enqueue-IsSound (aged job) true s v f
  settle-IsSound (negsuc (suc zero)) job s v f = enqueue-IsSound (aged job) false s v f
  settle-IsSound (negsuc (suc (suc n))) job s v f = enqueue-IsSound job true s v f

  start_job-IsSound :
      (job : Job) (queue : List Job) (s : Sched W)
      → s.queue ≡ job ∷ queue
      → IsSound s
      → IsSound (start_job job queue s) × IsFresh job.addr queue
  start_job-IsSound job queue s e v =
      let d = subst IsDistinct e v.distinct in
      (record { distinct = d.1; counted = ground (arith, v.counted, ap length e) }, d.0)

  perform-IsSound :
      (fuel n : ℕ) (queue : List Job) (s : Sched W)
      → n < fuel
      → s.queue ≡ queue
      → IsSound s
      → (after : Sched W) × (perform run fuel (pos (suc n)) queue s ≡ some after) × IsSound after
  unfolding perform
  perform-IsSound zero n queue s l e v = absurd (omega arith)
  perform-IsSound (suc fuel) n [] s l e v = (s, refl, v)
  perform-IsSound (suc fuel) zero (job ∷ queue) s l e v =
      let (v', f) = start_job-IsSound job queue s e v in
      let (r, t, ran, v'', f') = safe.returns job (start_job job queue s) v' f in
      let (u, settled, w) = settle-IsSound r job t v'' f' in (u, rw (ran, settled), w)
  perform-IsSound (suc fuel) (suc n) (job ∷ queue) s l e v =
      let (v', f) = start_job-IsSound job queue s e v in
      let (r, t, ran, v'', f') = safe.returns job (start_job job queue s) v' f in
      let (u, settled, w) = settle-IsSound r job t v'' f' in
      let (after, ends, x) = perform-IsSound fuel n u.queue u (omega arith) refl w in
      (after, rw (ran, settled) ends, x)

  perform_up_to :
      (fuel n : ℕ) (queue : List Job) (s : Sched W)
      → n < fuel
      → (n ≡ 0 → queue ≡ [])
      → s.queue ≡ queue
      → IsSound s
      → (after : Sched W) × (perform run fuel (pos n) queue s ≡ some after) × IsSound after
  unfolding perform
  perform_up_to zero n queue s l z e v = absurd (omega arith)
  perform_up_to (suc fuel) zero [] s l z e v = (s, refl, v)
  perform_up_to (suc fuel) zero (q ∷ queue) s l z e v = absurd (ground (arith, z refl))
  perform_up_to (suc fuel) (suc n) queue s l z e v =
      perform-IsSound (suc fuel) n queue s (omega arith) e v

  nil_of_uncounted :
      (s : Sched W) (queue : List Job)
      → s.queue ≡ queue
      → length s.queue < 2 ^ 32
      → IsCounted s
      → s.count ≡ 0
      → queue ≡ []
  nil_of_uncounted s [] e m c z = refl
  nil_of_uncounted s (q ∷ queue) e m c z = absurd (omega (arith, ap length e))

  -- how many jobs a call may perform
  abbrev pub rounds : ℤ → ℕ → ℕ
  rounds (pos n) count = n
  rounds (negsuc n) count = count

  perform-limit_of :
      (fuel : ℕ) (max_do : ℤ) (s : Sched W)
      → IsSound s
      → length s.queue < 2 ^ 32
      → max_do ≢ pos 0
      → rounds max_do s.count < fuel
      → (after : Sched W) × (perform run fuel (limit_of max_do s.count) s.queue s ≡ some after)
        × IsSound after
  perform-limit_of fuel (pos zero) s v m z l = absurd (z refl)
  perform-limit_of fuel (pos (suc n)) s v m z l =
      perform-IsSound fuel n s.queue s (omega arith) refl v
  perform-limit_of fuel (negsuc k) s v m z l =
      perform_up_to fuel s.count s.queue s l (nil_of_uncounted s s.queue refl m v.counted) refl v

  -- Unless the limit is 0, `schedule` comes to its end: no pointer that it follows is NULL or
  -- dangling, the list stays sound, and the result says whether jobs are left. The jobs are safe,
  -- the list is sound and holds less than 2^32 jobs, no other `schedule` is running, and the fuel
  -- is more than the number of jobs that may be performed.
  pub schedule-IsSound :
      (fuel : ℕ) (max_do : ℤ) (s : Sched W)
      → IsSound s
      → length s.queue < 2 ^ 32
      → s.depth ≡ 0
      → max_do ≢ pos 0
      → rounds max_do s.count < fuel
      → (after : Sched W) × (schedule run fuel max_do s
          ≡ some (if is_empty after.queue then 0 else 1, after))
        × IsSound after
  unfolding schedule
  schedule-IsSound fuel max_do s v m d z l =
      let inside = record s { depth = s.depth + 1 } in
      let v' : IsSound inside = record { distinct = v.distinct; counted = v.counted } in
      let (t, ends, w) = perform-limit_of fuel max_do inside v' m z l in
      (stopped t, ground (arith, ends), IsSound-of t (stopped t) (ground arith) (ground arith) w)
    where
      stopped : Sched W → Sched W
      stopped t =
          let u = control_if_empty (record t { prio = pos 1 }) in record u { depth = u.depth - 1 }
