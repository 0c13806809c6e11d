-- ===== src/Schedule/Queue/Behind.antt =====
-- `sort_in` without `order`: a job is put behind the first lower one.
use highwire.Common.{true, List, ◌∷◌, ◌++◌, ◌≡◌}
use highwire.Common.Int.{ltb_ℤ}
use highwire.Schedule.{Job}
use highwire.Schedule.Queue.Walks.{AtLeast}

-- `queue'` is `queue` with the job right behind the first job that is lower.
pub record Behind (job : Job) (queue queue' : List Job) : Type 0 where
  pub front : List Job
  pub lower : Job
  pub back : List Job
  pub was : queue ≡ front ++ lower ∷ back
  pub now : queue' ≡ front ++ lower ∷ job ∷ back
  pub not_lower : AtLeast job.priority front
  pub is_lower : ltb_ℤ lower.priority job.priority ≡ true
