-- ===== src/Schedule/Run/Timer.antt =====
-- The timer: after any calls of `sched_init`, `sched_insert` and `sched_remove` it runs exactly while
-- jobs are queued.
use mathlib.Core.Path.{subst}
use highwire.Common.{
  ℕ, suc, ◌+◌, ◌^◌, ◌<◌, Bool, true, false, List, [], ◌∷◌, none, some, ◌≡◌, ◌≢◌, refl, sym, ap, inl,
  inr, arith, length, if◌then◌else◌, Bool-cases, Option, bind-eq-some, ◌↔◌,
}
use highwire.Common.Int.{ℤ, pos, negsuc}
use highwire.Schedule.{
  Job, Sched, is_empty, is_wanted, sched_init, sched_insert, sched_remove, new_job, given_prio,
  control_if_first, enqueue, sort_in,
}
use highwire.Schedule.Nodes.{IsFresh, IsDistinct, length-middle}
use highwire.Schedule.Queue.{sort_in-Inserted}
use highwire.Schedule.Remove.{others, sched_remove-Removed, others-of_none}
use highwire.Schedule.Run.{IsSound, IsSound-of, enqueue-IsSound}

abbrev pub last_call : List (ℕ × ℤ) → Option (ℕ × ℤ)
last_call [] = none
last_call (c ∷ calls) = some c

length-sort_in :
    (job : Job) (order : Bool) (queue queue' : List Job)
    → sort_in job order queue ≡ some queue'
    → length queue' ≡ suc (length queue)
length-sort_in job order queue queue' h =
    let (now, e, i) = sort_in-Inserted job order queue in
    ground (arith, e, ap length i.now, ap length i.was, length-middle i.front job i.back)

is_empty_iff : (queue : List Job) → (is_empty queue ≡ true) ↔ (length queue ≡ 0)
is_empty_iff [] = (λ e. refl, λ e. refl)
is_empty_iff (q ∷ queue) = (λ e. cc, λ e. absurd (omega arith))

IsFresh-others :
    (func value a : ℕ) (queue : List Job) → IsFresh a queue → IsFresh a (others func value queue)
IsFresh-others func value a [] h = tt
IsFresh-others func value a (q ∷ queue) h = elim (Bool-cases (is_wanted func value q)) [
  | inl want ↦ rw want (IsFresh-others func value a queue h.1)
  | inr other ↦ rw other (h.0, IsFresh-others func value a queue h.1)
]

IsDistinct-others :
    (func value : ℕ) (queue : List Job) → IsDistinct queue → IsDistinct (others func value queue)
IsDistinct-others func value [] h = tt
IsDistinct-others func value (q ∷ queue) h = elim (Bool-cases (is_wanted func value q)) [
  | inl want ↦ rw want (IsDistinct-others func value queue h.1)
  | inr other ↦
      rw other (IsFresh-others func value q.addr queue h.0, IsDistinct-others func value queue h.1)
]

is_empty-others :
    (func value : ℕ) (queue : List Job)
    → is_empty (others func value queue) ≡ false
    → is_empty queue ≡ false
is_empty-others func value [] h = h
is_empty-others func value (q ∷ queue) h = refl

module _ {W : Type 0} where
  -- If a control function is registered, its last call was with 0 if jobs are queued and else with
  -- -1.
  abbrev pub IsTimed : Sched W → Type 0
  IsTimed s =
      s.on_off ≢ 0
      → last_call s.calls ≡ some (s.on_off, if is_empty s.queue then negsuc 0 else pos 0)

  -- One call of the module from outside of the jobs.
  pub data Call (s : Sched W) : Sched W → Type 0 where
    init : (func : ℕ) → Call s (sched_init func s)
    insert :
        {t : Sched W} (addr func value hash : ℕ) (prio : ℤ) (done : Bool)
        → IsFresh addr s.queue
        → length s.queue + 1 < 2 ^ 32
        → sched_insert (some addr) func value hash prio s ≡ some (done, t)
        → Call s t
    exhausted :
        {t : Sched W} (func value hash : ℕ) (prio : ℤ) (done : Bool)
        → sched_insert none func value hash prio s ≡ some (done, t)
        → Call s t
    remove :
        {t : Sched W} (func value num : ℕ) → sched_remove func value s ≡ some (num, t) → Call s t

  pub data Reaches (s : Sched W) : Sched W → Type 0 where
    here : Reaches s s
    call : {t u : Sched W} → Reaches s t → Call t u → Reaches s u

  abbrev pub Good : Sched W → Type 0
  Good s = IsSound s × IsTimed s

  init-Good : (func : ℕ) (s : Sched W) → Good s → Good (sched_init func s)
  unfolding sched_init
  init-Good func s (v, h) =
      (IsSound-of s (sched_init func s) (ground arith) (ground arith) v, ground arith)

  insert-Good :
      (job : Job) (s u : Sched W)
      → IsFresh job.addr s.queue
      → length s.queue + 1 < 2 ^ 32
      → enqueue job true s ≡ some u
      → Good s
      → Good (control_if_first u)
  insert-Good job s u f m e (v, h) =
      let (after, e', w) = enqueue-IsSound job true s v f in
      let (queue', sorted, set) = bind-eq-some (sort_in job true s.queue) _ e in
      let longer = length-sort_in job true s.queue queue' sorted in
      (
        IsSound-of after (control_if_first u) (ground (arith, e')) (ground (arith, e')) w,
        λ on. ground (
          arith,
          set,
          longer,
          v.counted,
          h (λ z. on (ground (arith, set))),
          is_empty_iff s.queue,
          is_empty_iff queue',
        ),
      )

  remove-Good :
      (func value num : ℕ) (s t : Sched W)
      → sched_remove func value s ≡ some (num, t)
      → Good s
      → Good t
  remove-Good func value num s t e (v, h) =
      let (after, e', r) = sched_remove-Removed func value s v.distinct v.counted in
      (
        IsSound-of after t (ground (arith, e')) (ground (arith, e')) (record {
          distinct =
              subst IsDistinct (sym r.queue) (IsDistinct-others func value s.queue v.distinct);
          counted = r.counted;
        }),
        λ on. ground (
          arith,
          e',
          r.calls,
          r.queue,
          r.on_off,
          h (λ z. on (ground (arith, e', r.on_off))),
          others-of_none func value s.queue,
          is_empty-others func value s.queue,
        ),
      )

  Call-Good : {s t : Sched W} → Call s t → Good s → Good t
  unfolding sched_insert
  Call-Good {s} (init func) g = init-Good func s g
  Call-Good {s} {t} (insert addr func value hash prio done f m e) g =
      let job = new_job addr func value hash (given_prio prio s.prio) in
      let (u, put, ends) = bind-eq-some (enqueue job true s) _ e in
      subst Good (cc ends) (insert-Good job s u f m put g)
  Call-Good {s} {t} (exhausted func value hash prio done e) g = subst Good (cc) g
  Call-Good {s} {t} (remove func value num e) g = remove-Good func value num s t e g

  -- Whatever calls of `sched_init`, `sched_insert` and `sched_remove` are made from a state in
  -- which the list is sound and the timer is right, both stay so. New nodes have new addresses, and
  -- there are less than 2^32 of them.
  pub Reaches-Good : {s t : Sched W} → Good s → Reaches s t → Good t
  Reaches-Good g here = g
  Reaches-Good g (call r c) = Call-Good c (Reaches-Good g r)
