-- ===== src/Schedule/Queue.antt =====
-- `sort_in`: where a job is put.
pub mod Walks
pub mod Behind
use mathlib.Core.List.{
  reverse, append_assoc, append-nil, reverse-cons, reverse-append, reverse-reverse,
}
use mathlib.Core.Path.{subst}
use highwire.Common.{
  ℕ, Bool, true, false, not, some, List, [], ◌∷◌, ◌++◌, ◌≡◌, refl, sym, ap, ◌∙◌, inl, inr, arith,
  Bool-cases, ◌>>=◌,
}
use highwire.Common.Int.{ℤ, ltb_ℤ, leb_ℤ, ◌≤ℤ◌}
use highwire.Schedule.{Job, sort_in, last_priority, behind_lower, before_lower}
use Walks.{
  Inserted, AtMost, AtLeast, AllBelow, IsDescending, Stopped, behind_lower-Inserted,
  before_lower-Stopped, AllBelow-reverse, AtLeast-last, AllBelow-of_AtMost, AtLeast-front,
  IsDescending-insert,
}

-- What the walk from the end finds in the list as it stands.
record Found (job : Job) (queue : List Job) : Type 0 where
  front : List Job
  stop : Job
  back : List Job
  splits : queue ≡ (front ++ stop ∷ []) ++ back
  result :
      (before_lower job (reverse queue) >>= λ b. some (reverse b))
      ≡ some ((front ++ stop ∷ []) ++ job ∷ back)
  lower : AllBelow job.priority back
  not_lower : job.priority ≤ℤ stop.priority

reverse-middle :
    (xs : List Job) (x : Job) (ys : List Job)
    → reverse (xs ++ x ∷ ys) ≡ (reverse ys ++ x ∷ []) ++ reverse xs
reverse-middle xs x ys = rw reverse-append (rw reverse-cons)

Found-exists :
    (job q : Job) (queue : List Job) → ltb_ℤ q.priority job.priority ≡ false → Found job (q ∷ queue)
Found-exists job q queue h =
    let s = before_lower-Stopped job q (reverse queue) h in
    let e = reverse-cons q queue in
    record {
      front = reverse s.rest;
      stop = s.stop;
      back = reverse s.passed;
      splits =
          sym (reverse-reverse (q ∷ queue))
          ∙ ap reverse (e ∙ s.splits)
          ∙ reverse-middle s.passed s.stop s.rest;
      result =
          rw (e, s.result)
            (ap some (
              reverse-append s.passed (job ∷ s.stop ∷ s.rest)
              ∙ rw (reverse-cons, reverse-cons)
                  (append_assoc (reverse s.rest ++ s.stop ∷ []) (job ∷ []) (reverse s.passed))));
      lower = AllBelow-reverse job.priority s.passed s.lower;
      not_lower = s.not_lower;
    }

-- No walk of `sort_in` meets a NULL pointer, whatever the order of the queue, and the job is put
-- somewhere into the queue, whose other jobs keep their order.
pub sort_in-Inserted :
    (job : Job) (order : Bool) (queue : List Job)
    → (queue' : List Job) × (sort_in job order queue ≡ some queue') × Inserted job queue queue'
unfolding sort_in
sort_in-Inserted job order [] =
    (job ∷ [], refl, record { front = []; back = []; was = refl; now = refl })
sort_in-Inserted job order (q ∷ queue) =
    elim (Bool-cases (leb_ℤ job.priority (last_priority q queue))) [
      | inl low ↦ (
        (q ∷ queue) ++ job ∷ [],
        rw low,
        record { front = q ∷ queue; back = []; was = sym (append-nil (q ∷ queue)); now = refl },
      )
      | inr high ↦ walked order high
    ]
  where
    walked :
        (order : Bool)
        → leb_ℤ job.priority (last_priority q queue) ≡ false
        → (queue' : List Job) × (sort_in job order (q ∷ queue) ≡ some queue')
          × Inserted job (q ∷ queue) queue'
    walked false high =
        let (queue', e, i) = behind_lower-Inserted job q queue high in (queue', rw high e, i)
    walked true high = elim (Bool-cases (ltb_ℤ q.priority job.priority)) [
      | inl first ↦ (
        job ∷ q ∷ queue,
        rw (high, first),
        record { front = []; back = q ∷ queue; was = refl; now = refl },
      )
      | inr later ↦
          let f = Found-exists job q queue later in
          (
            (f.front ++ f.stop ∷ []) ++ job ∷ f.back,
            rw (high, later) f.result,
            record { front = f.front ++ f.stop ∷ []; back = f.back; was = f.splits; now = refl },
          )
    ]

-- `queue'` is the descending `queue` with the job behind all that are not lower.
pub record Placed (job : Job) (queue queue' : List Job) : Type 0 where
  pub front : List Job
  pub back : List Job
  pub was : queue ≡ front ++ back
  pub now : queue' ≡ front ++ job ∷ back
  pub not_lower : AtLeast job.priority front
  pub lower : AllBelow job.priority back
  pub descends : IsDescending queue'

Placed-intro :
    (job : Job) (queue front back : List Job)
    → queue ≡ front ++ back
    → IsDescending queue
    → AtLeast job.priority front
    → AllBelow job.priority back
    → Placed job queue (front ++ job ∷ back)
Placed-intro job queue front back e d f b = record {
  front = front;
  back = back;
  was = e;
  now = refl;
  not_lower = f;
  lower = b;
  descends = IsDescending-insert job front back (subst IsDescending e d) f b;
}

-- In a queue whose priorities descend, a job goes behind those of its own priority, and the
-- priorities descend again.
pub sort_in-Placed :
    (job : Job) (queue : List Job)
    → IsDescending queue
    → (queue' : List Job) × (sort_in job true queue ≡ some queue') × Placed job queue queue'
unfolding sort_in
sort_in-Placed job [] d = (job ∷ [], refl, Placed-intro job [] [] [] refl tt tt tt)
sort_in-Placed job (q ∷ queue) d = elim (Bool-cases (leb_ℤ job.priority (last_priority q queue))) [
  | inl low ↦ (
    (q ∷ queue) ++ job ∷ [],
    rw low,
    Placed-intro job (q ∷ queue) (q ∷ queue) [] (sym (append-nil (q ∷ queue))) d
        (AtLeast-last job.priority q queue d low) tt,
  )
  | inr high ↦ elim (Bool-cases (ltb_ℤ q.priority job.priority)) [
    | inl first ↦ (
      job ∷ q ∷ queue,
      rw (high, first),
      Placed-intro job (q ∷ queue) [] (q ∷ queue) refl d tt
          (first, AllBelow-of_AtMost job.priority q.priority queue first d.0),
    )
    | inr later ↦
        let f = Found-exists job q queue later in
        let d' = subst IsDescending f.splits d in
        (
          (f.front ++ f.stop ∷ []) ++ job ∷ f.back,
          rw (high, later) f.result,
          Placed-intro job (q ∷ queue) (f.front ++ f.stop ∷ []) f.back f.splits d
              (AtLeast-front job.priority f.front f.stop f.back d' f.not_lower) f.lower,
        )
  ]
]
