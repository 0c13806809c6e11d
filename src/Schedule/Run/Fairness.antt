-- ===== src/Schedule/Run/Fairness.antt =====
-- `schedule`: which jobs its rounds reach.
use highwire.Common.{
  ℕ, zero, suc, ◌+◌, ◌-◌, ◌≤◌, ◌<◌, true, false, List, [], ◌∷◌, some, ◌≡◌, refl, arith,
}
use highwire.Common.Int.{ℤ, pos, negsuc, leb_ℤ}
use highwire.Schedule.{
  Job, Sched, Runner, sort_in, count_up, start_job, settle, perform, schedule, last_priority,
}
use highwire.Schedule.Queue.Walks.{AllBelow}

last-AllBelow :
    (p : ℤ) (q : Job) (queue : List Job)
    → AllBelow p (q ∷ queue)
    → leb_ℤ p (last_priority q queue) ≡ false
last-AllBelow p q [] h = ground arith
last-AllBelow p q (r ∷ queue) h = last-AllBelow p r queue h.1

-- a job above all others goes first
sort_in-first :
    (job : Job) (queue : List Job)
    → AllBelow job.priority queue
    → sort_in job true queue ≡ some (job ∷ queue)
unfolding sort_in
sort_in-first job [] h = refl
sort_in-first job (q ∷ queue) h = rw (last-AllBelow job.priority q queue h, h.0)

abbrev pub iterate {ℓ} : {A : Type ℓ} → ℕ → (A → A) → A → A
iterate zero f a = a
iterate (suc n) f a = iterate n f (f a)

module _ {W : Type 0} (run : Runner W) (job : Job) (rest : List Job) (act : W → W) where
  -- the job asks to be kept, and leaves the scheduler alone
  abbrev pub IsKept : Type 0
  IsKept = (s : Sched W) → run job 0 s ≡ some (pos 1, record s { world = act s.world })

  perform-first :
      (fuel n : ℕ) (s : Sched W)
      → IsKept
      → AllBelow job.priority rest
      → n < fuel
      → s.queue ≡ job ∷ rest
      → (after : Sched W) × (perform run fuel (pos (suc n)) (job ∷ rest) s ≡ some after)
        × (after.queue ≡ job ∷ rest)
        × (after.world ≡ iterate (suc n) act s.world)
  unfolding perform settle
  perform-first zero n s k b l e = absurd (omega arith)
  perform-first (suc fuel) zero s k b l e =
      let t = record (start_job job rest s) { world = act s.world } in
      (
        record t { queue = job ∷ rest; count = count_up t.count },
        rw (k (start_job job rest s), sort_in-first job rest b),
        refl,
        refl,
      )
  perform-first (suc fuel) (suc n) s k b l e =
      let t = record (start_job job rest s) { world = act s.world } in
      let u = record t { queue = job ∷ rest; count = count_up t.count } in
      let (after, ends, q, w) = perform-first fuel n u k b (omega arith) refl in
      (after, rw (k (start_job job rest s), sort_in-first job rest b) ends, q, w)

  perform-first_pos :
      (fuel n : ℕ) (s : Sched W)
      → IsKept
      → AllBelow job.priority rest
      → 0 < n
      → n ≤ fuel
      → s.queue ≡ job ∷ rest
      → (after : Sched W) × (perform run fuel (pos n) (job ∷ rest) s ≡ some after)
        × (after.queue ≡ job ∷ rest)
        × (after.world ≡ iterate n act s.world)
  perform-first_pos fuel zero s k b p l e = absurd (omega arith)
  perform-first_pos fuel (suc n) s k b p l e = perform-first fuel n s k b l e

  -- A job that is above all others and asks to be kept is performed in every round, and the others
  -- are not reached, although `max_do < 0` stands for all jobs of the queue: the job runs `__cnt`
  -- times.
  pub schedule_starves :
      (fuel k : ℕ) (s : Sched W)
      → IsKept
      → AllBelow job.priority rest
      → s.queue ≡ job ∷ rest
      → s.depth ≡ 0
      → 0 < s.count
      → s.count ≤ fuel
      → (after : Sched W) × (schedule run fuel (negsuc k) s ≡ some (1, after))
        × (after.queue ≡ job ∷ rest)
        × (after.world ≡ iterate s.count act s.world)
  unfolding schedule
  schedule_starves fuel k s kept b e d p l =
      let inside = record s { depth = s.depth + 1 } in
      let (t, ends, q, w) = perform-first_pos fuel s.count inside kept b p l e in
      (record t { prio = pos 1; depth = t.depth - 1 }, ground (arith, ends), q, w)

-- A job that unlinks all others, so that the timer is stopped, and then asks to be kept, is put
-- back into the queue, but the timer stays stopped: the last call of `on_off` is the one of -1.
pub schedule_lost_wakeup :
    {W : Type 0} (run : Runner W) (fuel : ℕ) (job : Job) (rest : List Job) (s t : Sched W)
    (calls : List (ℕ × ℤ))
    → s.queue ≡ job ∷ rest
    → s.depth ≡ 0
    → run job 0 (start_job job rest (record s { depth = 1 })) ≡ some (pos 1, t)
    → t.queue ≡ []
    → t.calls ≡ (t.on_off, negsuc 0) ∷ calls
    → (after : Sched W) × (schedule run (suc fuel) (pos 1) s ≡ some (1, after))
      × (after.queue ≡ job ∷ [])
      × (after.on_off ≡ t.on_off)
      × (after.calls ≡ (t.on_off, negsuc 0) ∷ calls)
unfolding schedule perform settle sort_in
schedule_lost_wakeup run fuel job rest s t calls e d ran q c = (
  record t { queue = job ∷ []; count = count_up t.count; prio = pos 1; depth = t.depth - 1 },
  ground (arith, e, d, ran, q),
  refl,
  refl,
  c,
)
