-- ===== src/Schedule/Tests.antt =====
-- Runs of the job queue, and its theorems at a queue of three jobs.
use highwire.Common.{
  ℕ, true, false, List, [], ◌∷◌, none, some, ◌≡◌, refl, arith, length, if◌then◌else◌,
}
use highwire.Common.Int.{ℤ, pos, negsuc}
use highwire.Schedule.{
  Job, Sched, Runner, sched_insert, sched_remove, sched_clear, schedule, sort_in, start_job,
  is_empty,
}
use highwire.Schedule.Nodes.{IsCounted}
use highwire.Schedule.Queue.Walks.{Inserted}
use highwire.Schedule.Queue.{sort_in-Inserted, Placed, sort_in-Placed}
use highwire.Schedule.Queue.Behind.{Behind}
use highwire.Schedule.Remove.{Removed, sched_remove-Removed}
use highwire.Schedule.Clear.{outside, sched_clear-outside, sched_clear_dangling}
use highwire.Schedule.Run.{IsSafe, IsSound, schedule-IsSound}
use highwire.Schedule.Run.Fairness.{schedule_starves, schedule_lost_wakeup}
use highwire.Schedule.Run.Timer.{Good, insert, here, call, Reaches-Good}

abbrev job : ℕ → ℤ → ℕ → ℕ → Job
job addr priority value hash = record {
  addr = addr;
  priority = priority;
  func = 1;
  value = value;
  hash = hash;
}

abbrev high : Job
high = job 100 (pos 5) 1 7

abbrev middle : Job
middle = job 200 (pos 3) 2 8

abbrev low : Job
low = job 300 (pos 1) 1 7

abbrev new : Job
new = job 400 (pos 4) 9 9

abbrev queue : List Job
queue = high ∷ middle ∷ low ∷ []

abbrev state : List Job → ℕ → Sched (List ℕ)
state queue depth = record {
  queue = queue;
  count = length queue;
  on_off = 1;
  prio = pos 1;
  depth = depth;
  calls = (1, if is_empty queue then negsuc 0 else pos 0) ∷ [];
  world = [];
}

-- the jobs note the addresses that they run at, and are done
abbrev noted : Job → List ℕ → List ℕ
noted q w = q.addr ∷ w

abbrev done : Runner (List ℕ)
done job hash s = some (pos 0, record s { world = noted job s.world })

-- a job that is put behind the lower ones is not put at the end of the queue
sort_in_behind : sort_in new false queue ≡ some (high ∷ middle ∷ new ∷ low ∷ [])
unfolding sort_in
sort_in_behind = refl

sort_in-Inserted_run :
    (queue' : List Job) × (sort_in new false queue ≡ some queue') × Inserted new queue queue'
sort_in-Inserted_run = sort_in-Inserted new false queue

sort_in-Placed_example :
    (queue' : List Job) × (sort_in new true queue ≡ some queue') × Placed new queue queue'
sort_in-Placed_example = sort_in-Placed new queue (ground arith)

sched_remove-Removed_example :
    (after : Sched (List ℕ)) × (sched_remove 0 1 (state queue 0) ≡ some (2, after))
    × Removed 0 1 [] queue (state queue 0) after
sched_remove-Removed_example = sched_remove-Removed 0 1 (state queue 0) (ground arith) refl

sched_clear-outside_example :
    (after : Sched (List ℕ)) × (sched_clear (outside (λ q. pos 0) noted) 4 7 (state queue 0)
      ≡ some (2, after))
    × (after.queue ≡ middle ∷ [])
    × IsCounted after
    × (after.world ≡ 300 ∷ 100 ∷ [])
sched_clear-outside_example =
    sched_clear-outside (λ q. pos 0) noted 7 4 (state queue 0) (omega arith) (ground arith) refl

-- the job `high` has removed the others
abbrev removing : Runner (List ℕ)
removing job hash s = some (
  pos 1,
  record s {
    queue = if is_empty s.queue then [] else job ∷ [];
    count = if is_empty s.queue then 0 else 1;
  },
)

sched_clear_dangling_example : sched_clear removing 9 7 (state queue 0) ≡ none
sched_clear_dangling_example =
    sched_clear_dangling removing 9 7 high middle (low ∷ []) [] (state queue 0)
      (record (state queue 0) { queue = high ∷ []; count = 1 }) (pos 1) refl refl refl refl tt

done-IsSafe : IsSafe done
done-IsSafe = record {
  returns = λ job s v f. (
    pos 0,
    record s { world = noted job s.world },
    refl,
    record { distinct = v.distinct; counted = v.counted },
    f,
  );
}

state-IsSound : IsSound (state queue 0)
state-IsSound = record { distinct = ground arith; counted = refl }

schedule-IsSound_example :
    (after : Sched (List ℕ)) × (schedule done 4 (negsuc 0) (state queue 0)
      ≡ some (if is_empty after.queue then 0 else 1, after))
    × IsSound after
schedule-IsSound_example =
    schedule-IsSound done done-IsSafe 4 (negsuc 0) (state queue 0) state-IsSound (omega arith) refl
      (ground arith) (omega arith)

abbrev kept : Runner (List ℕ)
kept job hash s = some (pos 1, record s { world = 1 ∷ s.world })

schedule_starves_example :
    (after : Sched (List ℕ)) × (schedule kept 3 (negsuc 0) (state queue 0) ≡ some (1, after))
    × (after.queue ≡ queue)
    × (after.world ≡ 1 ∷ 1 ∷ 1 ∷ [])
schedule_starves_example =
    schedule_starves kept high (middle ∷ low ∷ []) (λ w. 1 ∷ w) 3 0 (state queue 0) (λ s. refl)
      (ground arith) refl refl (omega arith) (omega arith)

-- what `sched_remove` for the value of `middle` and `low` does to the statics
abbrev alone : Sched (List ℕ) → Sched (List ℕ)
alone s = record s { queue = []; count = 0; calls = (s.on_off, negsuc 0) ∷ s.calls }

abbrev lonely : Runner (List ℕ)
lonely job hash s = some (pos 1, alone s)

schedule_lost_wakeup_run :
    (after : Sched (List ℕ)) × (schedule lonely 2 (pos 1) (state queue 0) ≡ some (1, after))
    × (after.queue ≡ high ∷ [])
    × (after.on_off ≡ 1)
    × (after.calls ≡ (1, negsuc 0) ∷ (1, pos 0) ∷ [])
schedule_lost_wakeup_run =
    schedule_lost_wakeup lonely 1 high (middle ∷ low ∷ []) (state queue 0)
      (alone (start_job high (middle ∷ low ∷ []) (state queue 1))) ((1, pos 0) ∷ []) refl refl refl
      refl refl

abbrev one_more : Sched (List ℕ)
one_more = record (state queue 0) { queue = high ∷ new ∷ middle ∷ low ∷ []; count = 4 }

one_more-inserted : sched_insert (some 400) 1 9 9 (pos 4) (state queue 0) ≡ some (true, one_more)
unfolding sched_insert sort_in
one_more-inserted = refl

Reaches-Good_example : Good one_more
Reaches-Good_example =
    Reaches-Good (state-IsSound, λ on. refl)
      (call here (insert 400 1 9 9 (pos 4) true (ground arith) (omega arith) one_more-inserted))
