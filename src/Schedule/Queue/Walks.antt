-- ===== src/Schedule/Queue/Walks.antt =====
-- The two walks of `sort_in`, and the queues whose priorities descend.
use mathlib.Core.List.{append_assoc, reverse, reverse-cons}
use highwire.Common.{
  true, false, some, List, [], ◌∷◌, ◌++◌, ◌≡◌, refl, ap, inl, inr, arith, Bool-cases,
}
use highwire.Common.Int.{ℤ, ltb_ℤ, leb_ℤ, ◌≤ℤ◌}
use highwire.Schedule.{Job, last_priority, behind_lower, before_lower}

-- `queue'` is `queue` with the job put in somewhere.
pub record Inserted (job : Job) (queue queue' : List Job) : Type 0 where
  pub front : List Job
  pub back : List Job
  pub was : queue ≡ front ++ back
  pub now : queue' ≡ front ++ job ∷ back

abbrev pub AtMost : ℤ → List Job → Type 0
AtMost p [] = Unit
AtMost p (q ∷ queue) = (q.priority ≤ℤ p) × AtMost p queue

abbrev pub AtLeast : ℤ → List Job → Type 0
AtLeast p [] = Unit
AtLeast p (q ∷ queue) = (p ≤ℤ q.priority) × AtLeast p queue

abbrev pub AllBelow : ℤ → List Job → Type 0
AllBelow p [] = Unit
AllBelow p (q ∷ queue) = (ltb_ℤ q.priority p ≡ true) × AllBelow p queue

abbrev pub IsDescending : List Job → Type 0
IsDescending [] = Unit
IsDescending (q ∷ queue) = AtMost q.priority queue × IsDescending queue

pub behind_lower-Inserted :
    (job q : Job) (queue : List Job)
    → leb_ℤ job.priority (last_priority q queue) ≡ false
    → (queue' : List Job) × (behind_lower job (q ∷ queue) ≡ some queue')
      × Inserted job (q ∷ queue) queue'
unfolding behind_lower
behind_lower-Inserted job q [] high =
    (q ∷ job ∷ [], ground arith, record { front = q ∷ []; back = []; was = refl; now = refl })
behind_lower-Inserted job q (r ∷ queue) high = elim (Bool-cases (leb_ℤ job.priority q.priority)) [
  | inl pass ↦
      let (rest, e, i) = behind_lower-Inserted job r queue high in
      (
        q ∷ rest,
        rw (pass, e),
        record {
          front = q ∷ i.front;
          back = i.back;
          was = ap (◌∷◌ q) i.was;
          now = ap (◌∷◌ q) i.now;
        },
      )
  | inr stop ↦ (
    q ∷ job ∷ r ∷ queue,
    rw stop,
    record { front = q ∷ []; back = r ∷ queue; was = refl; now = refl },
  )
]

-- What the walk from the end has found: the jobs `passed`, all lower, and one that is not.
pub record Stopped (job : Job) (back : List Job) : Type 0 where
  pub passed : List Job
  pub stop : Job
  pub rest : List Job
  pub splits : back ≡ passed ++ stop ∷ rest
  pub result : before_lower job back ≡ some (passed ++ job ∷ stop ∷ rest)
  pub lower : AllBelow job.priority passed
  pub not_lower : job.priority ≤ℤ stop.priority

pub before_lower-Stopped :
    (job q : Job) (back : List Job)
    → ltb_ℤ q.priority job.priority ≡ false
    → Stopped job (back ++ q ∷ [])
unfolding before_lower
before_lower-Stopped job q [] h = record {
  passed = [];
  stop = q;
  rest = [];
  splits = refl;
  result = rw h;
  lower = tt;
  not_lower = ground arith;
}
before_lower-Stopped job q (r ∷ back) h = elim (Bool-cases (ltb_ℤ r.priority job.priority)) [
  | inl pass ↦
      let s = before_lower-Stopped job q back h in
      record {
        passed = r ∷ s.passed;
        stop = s.stop;
        rest = s.rest;
        splits = ap (◌∷◌ r) s.splits;
        result = rw (pass, s.result);
        lower = (pass, s.lower);
        not_lower = s.not_lower;
      }
  | inr stay ↦ record {
    passed = [];
    stop = r;
    rest = back ++ q ∷ [];
    splits = refl;
    result = rw stay;
    lower = tt;
    not_lower = ground arith;
  }
]

AllBelow-append : (p : ℤ) (xs ys : List Job) → AllBelow p xs → AllBelow p ys → AllBelow p (xs ++ ys)
AllBelow-append p [] ys h k = k
AllBelow-append p (x ∷ xs) ys h k = (h.0, AllBelow-append p xs ys h.1 k)

pub AllBelow-reverse : (p : ℤ) (xs : List Job) → AllBelow p xs → AllBelow p (reverse xs)
AllBelow-reverse p [] h = tt
AllBelow-reverse p (x ∷ xs) h =
    rw reverse-cons (AllBelow-append p (reverse xs) (x ∷ []) (AllBelow-reverse p xs h.1) (h.0, tt))

pub AllBelow-of_AtMost : (p r : ℤ) (xs : List Job) → ltb_ℤ r p ≡ true → AtMost r xs → AllBelow p xs
AllBelow-of_AtMost p r [] l h = tt
AllBelow-of_AtMost p r (x ∷ xs) l h = (ground arith, AllBelow-of_AtMost p r xs l h.1)

last-le :
    (q : Job) (queue : List Job)
    → AtMost q.priority queue
    → IsDescending queue
    → last_priority q queue ≤ℤ q.priority
last-le q [] h d = omega arith
last-le q (r ∷ queue) h d = omega (arith, last-le r queue d.0 d.1)

-- the last job of a descending queue is its lowest
pub AtLeast-last :
    (p : ℤ) (q : Job) (queue : List Job)
    → IsDescending (q ∷ queue)
    → leb_ℤ p (last_priority q queue) ≡ true
    → AtLeast p (q ∷ queue)
AtLeast-last p q [] d h = (ground arith, tt)
AtLeast-last p q (r ∷ queue) d h =
    (ground (arith, last-le q (r ∷ queue) d.0 d.1), AtLeast-last p r queue d.1 h)

AtMost-middle :
    (p : ℤ) (xs : List Job) (x : Job) (ys : List Job) → AtMost p (xs ++ x ∷ ys) → x.priority ≤ℤ p
AtMost-middle p [] x ys h = h.0
AtMost-middle p (y ∷ xs) x ys h = AtMost-middle p xs x ys h.1

pub AtLeast-front :
    (p : ℤ) (front : List Job) (stop : Job) (back : List Job)
    → IsDescending ((front ++ stop ∷ []) ++ back)
    → p ≤ℤ stop.priority
    → AtLeast p (front ++ stop ∷ [])
AtLeast-front p [] stop back d h = (h, tt)
AtLeast-front p (q ∷ front) stop back d h = (
  omega (arith, AtMost-middle q.priority front stop back (rw append_assoc at d.0)),
  AtLeast-front p front stop back d.1 h,
)

AtMost-insert :
    (p : ℤ) (job : Job) (front back : List Job)
    → AtMost p (front ++ back)
    → job.priority ≤ℤ p
    → AtMost p (front ++ job ∷ back)
AtMost-insert p job [] back h l = (l, h)
AtMost-insert p job (q ∷ front) back h l = (h.0, AtMost-insert p job front back h.1 l)

AtMost-of_AllBelow : (p : ℤ) (xs : List Job) → AllBelow p xs → AtMost p xs
AtMost-of_AllBelow p [] h = tt
AtMost-of_AllBelow p (x ∷ xs) h = (ground arith, AtMost-of_AllBelow p xs h.1)

pub IsDescending-insert :
    (job : Job) (front back : List Job)
    → IsDescending (front ++ back)
    → AtLeast job.priority front
    → AllBelow job.priority back
    → IsDescending (front ++ job ∷ back)
IsDescending-insert job [] back d f b = (AtMost-of_AllBelow job.priority back b, d)
IsDescending-insert job (q ∷ front) back d f b =
    (AtMost-insert q.priority job front back d.0 f.0, IsDescending-insert job front back d.1 f.1 b)
