-- ===== src/Schedule.antt =====
-- src/schedule.c, the job queue. The doubly linked list is the list of its nodes from `__beg` on,
-- each with its address; a walk along `Prev` is a walk over the reversed list. `none` is a fault:
-- a NULL or a dangling pointer was followed, or a job did not return. What the jobs do is the
-- parameter `run` of the operations that call them.
mod Nodes
pub mod Queue
pub mod Remove
pub mod Clear
pub mod Run
mod Tests
use mathlib.Core.List.{reverse}
use highwire.Common.{
  ℕ, zero, suc, ◌+◌, ◌-◌, ◌%◌, ◌^◌, Bool, true, false, not, ◌&&◌, ◌||◌, Option, none, some, List,
  [], ◌∷◌, ◌++◌, ◌==◌, if◌then◌else◌, ◌>>=◌,
}
use highwire.Common.Int.{ℤ, pos, negsuc, ltb_ℤ, leb_ℤ}

-- `struct s_SCHED`. A `func` of 0 is NULL; `value` and `hash` are only compared.
pub record Job : Type 0 where
  pub addr : ℕ
  pub priority : ℤ
  pub func : ℕ
  pub value : ℕ
  pub hash : ℕ

-- The statics of the module: the list, `__cnt`, `on_off` (0 is NULL), `current_prio`, `_recursive`;
-- `calls` are the calls of `on_off`, the last one first, and `world` is all that the jobs see.
pub record Sched (W : Type 0) : Type 0 where
  pub queue : List Job
  pub count : ℕ
  pub on_off : ℕ
  pub prio : ℤ
  pub depth : ℕ
  pub calls : List (ℕ × ℤ)
  pub world : W

-- The walk for `order == FALSE`: from `__beg`, past the jobs that are not lower, and one further.
pub behind_lower : Job → List Job → Option (List Job)
behind_lower job [] = none
behind_lower job (q ∷ queue) =
    let rest = behind_lower job queue in
    if leb_ℤ job.priority q.priority then (rest >>= λ r. some (q ∷ r)) else some (q ∷ job ∷ queue)

-- The walk for `order == TRUE`, from `__end` along `Prev`: the list is reversed.
pub before_lower : Job → List Job → Option (List Job)
before_lower job [] = none
before_lower job (q ∷ back) =
    let rest = before_lower job back in
    if ltb_ℤ q.priority job.priority then (rest >>= λ r. some (q ∷ r)) else some (job ∷ q ∷ back)

abbrev pub last_priority : Job → List Job → ℤ
last_priority q [] = q.priority
last_priority q (r ∷ queue) = last_priority r queue

-- `sort_in`, for the list alone
pub sort_in : Job → Bool → List Job → Option (List Job)
unfolding behind_lower before_lower
sort_in job order [] = some (job ∷ [])
sort_in job order (q ∷ queue) =
    if leb_ℤ job.priority (last_priority q queue)
    then some ((q ∷ queue) ++ job ∷ [])
    else if not order
    then behind_lower job (q ∷ queue)
    else if ltb_ℤ q.priority job.priority
    then some (job ∷ q ∷ queue)
    else (before_lower job (reverse (q ∷ queue)) >>= λ back. some (reverse back))

-- `move_out`, for the list alone: the node with that address is unlinked.
pub unlink : ℕ → List Job → Option (List Job)
unlink a [] = none
unlink a (q ∷ queue) =
    let rest = unlink a queue in if q.addr == a then some queue else (rest >>= λ r. some (q ∷ r))

-- `__cnt++` and `__cnt--` on an unsigned long
abbrev pub count_up : ℕ → ℕ
count_up n = (n + 1) % 2 ^ 32

abbrev pub count_down : ℕ → ℕ
count_down n = (n + 2 ^ 32 - 1) % 2 ^ 32

abbrev pub is_empty : List Job → Bool
is_empty [] = true
is_empty (q ∷ queue) = false

-- `prio ? prio : current_prio`
abbrev pub given_prio : ℤ → ℤ → ℤ
given_prio (pos zero) current = current
given_prio prio current = prio

abbrev pub new_job : ℕ → ℕ → ℕ → ℕ → ℤ → Job
new_job addr func value hash priority = record {
  addr = addr;
  priority = priority;
  func = func;
  value = value;
  hash = hash;
}

-- `sched->Value == value && (!func || sched->func == func)`
abbrev pub is_wanted : ℕ → ℕ → Job → Bool
is_wanted func value job = job.value == value && (func == 0 || job.func == func)

module _ {W : Type 0} where
  -- `(*on_off)(msec)`
  abbrev pub control : ℤ → Sched W → Sched W
  control msec s = record s { calls = (s.on_off, msec) ∷ s.calls }

  -- `if (on_off && !__beg) (*on_off) (-1);`
  abbrev pub control_if_empty : Sched W → Sched W
  control_if_empty s = if not (s.on_off == 0) && is_empty s.queue then control (negsuc 0) s else s

  -- `func` may be NULL
  pub sched_init : ℕ → Sched W → Sched W
  sched_init func s =
      let off = if not (s.on_off == 0) then control (negsuc 0) s else s in
      let set = record off { on_off = func } in
      if not (func == 0) then control (if is_empty s.queue then negsuc 0 else pos 0) set else set

  -- `sort_in` on the statics
  abbrev pub enqueue : Job → Bool → Sched W → Option (Sched W)
  enqueue job order s = do
    queue ← sort_in job order s.queue
    some (record s { queue = queue; count = count_up s.count })

  -- `move_out`
  pub move_out : ℕ → Sched W → Option (Sched W)
  unfolding unlink
  move_out addr s = do
    queue ← unlink addr s.queue
    some (record s { queue = queue; count = count_down s.count })

  -- `if (on_off && __cnt == 1) (*on_off) (0);`
  abbrev pub control_if_first : Sched W → Sched W
  control_if_first s = if not (s.on_off == 0) && s.count == 1 then control (pos 0) s else s

  -- `memory` is what `malloc` returned.
  pub sched_insert : Option ℕ → ℕ → ℕ → ℕ → ℤ → Sched W → Option (Bool × Sched W)
  unfolding sort_in
  sched_insert none func value hash prio s = some (false, s)
  sched_insert (some addr) func value hash prio s = do
    let job = new_job addr func value hash (given_prio prio s.prio)
    t ← enqueue job true s
    some (true, control_if_first t)

  -- The loop of `sched_remove`; the list is what is left to visit, and `num` what was removed.
  pub remove_from : ℕ → ℕ → List Job → ℕ → Sched W → Option (ℕ × Sched W)
  unfolding move_out
  remove_from func value [] num s = some (num, s)
  remove_from func value (job ∷ next) num s = elim (is_wanted func value job) [
    | true ↦ move_out job.addr s >>= λ t. remove_from func value next (num + 1) (control_if_empty t)
    | false ↦ remove_from func value next num s
  ]

  pub sched_remove : ℕ → ℕ → Sched W → Option (ℕ × Sched W)
  unfolding remove_from
  sched_remove func value s = remove_from func value s.queue 0 s

-- `sched->Next`
abbrev pub next_of : List Job → Option ℕ
next_of [] = none
next_of (q ∷ queue) = some q.addr

-- the node at an address, with the address of its successor
pub node_at : ℕ → List Job → Option (Job × Option ℕ)
node_at a [] = none
node_at a (q ∷ queue) = if q.addr == a then some (q, next_of queue) else node_at a queue

abbrev pub older : ℤ → ℤ
older (pos (suc (suc n))) = pos (suc n)
older _ = pos 1

-- `if (sched->Priority > 1) sched->Priority -= 1; else sched->Priority = 1;`
abbrev pub aged : Job → Job
aged job = record job { priority = older job.priority }

-- `--max_do`; a call that performs 2^31 jobs is not modelled.
abbrev pub decrement : ℤ → ℤ
decrement (pos zero) = negsuc 0
decrement (pos (suc n)) = pos n
decrement (negsuc n) = negsuc (suc n)

abbrev pub is_zero : ℤ → Bool
is_zero (pos zero) = true
is_zero _ = false

-- `if (max_do < 0) max_do = (int)__cnt;`
abbrev pub limit_of : ℤ → ℕ → ℤ
limit_of (negsuc n) count = pos count
limit_of (pos n) count = pos n

-- `move_out (__beg)`, and the job's priority for what it inserts
abbrev pub start_job : {W : Type 0} → Job → List Job → Sched W → Sched W
start_job job queue s = record s { queue = queue; count = count_down s.count; prio = job.priority }

-- What a call of a job's function returns, and the statics that it leaves.
abbrev pub Runner : Type 0 → Type 0
Runner W = Job → ℕ → Sched W → Option (ℤ × Sched W)

module _ {W : Type 0} (run : Runner W) where
  -- The loop of `sched_clear`, at the node `sched`: its successor is read before the job is called.
  pub clear_from : ℕ → ℕ → Option ℕ → ℕ → Sched W → Option (ℕ × Sched W)
  unfolding move_out node_at
  clear_from zero hash sched num s = none
  clear_from (suc fuel) hash none num s = some (num, s)
  clear_from (suc fuel) hash (some addr) num s = do
    (job, next) ← node_at addr s.queue
    elim (job.hash == hash) [
      | true ↦ do
        (r, t) ← run job hash s
        u ← move_out addr t
        clear_from fuel hash next (num + 1) (control_if_empty u)
      | false ↦ clear_from fuel hash next num s
    ]

  pub sched_clear : ℕ → ℕ → Sched W → Option (ℕ × Sched W)
  unfolding clear_from
  sched_clear fuel hash s = clear_from fuel hash (next_of s.queue) 0 s

  -- the `switch` on what the job returned
  pub settle : ℤ → Job → Sched W → Option (Sched W)
  settle (pos zero) job s = some s
  settle (negsuc zero) job s = enqueue (aged job) true s
  settle (negsuc (suc zero)) job s = enqueue (aged job) false s
  settle _ job s = enqueue job true s

  -- `while (__beg) { .. if (!--max_do) break; }`
  pub perform : ℕ → ℤ → List Job → Sched W → Option (Sched W)
  unfolding settle
  perform zero max_do queue s = none
  perform (suc fuel) max_do [] s = some s
  perform (suc fuel) max_do (job ∷ queue) s = do
    (r, t) ← run job 0 (start_job job queue s)
    u ← settle r job t
    elim (is_zero (decrement max_do)) [
      | true ↦ some u
      | false ↦ perform fuel (decrement max_do) u.queue u
    ]

  -- `(__beg ? 1 : 0)`, behind `_recursive--`
  abbrev pub leave : Sched W → ℕ × Sched W
  leave s = (if is_empty s.queue then 0 else 1, record s { depth = s.depth - 1 })

  pub schedule : ℕ → ℤ → Sched W → Option (ℕ × Sched W)
  unfolding perform
  schedule fuel max_do s = elim (s.depth == 0) [
    | true ↦ do
      let inside = record s { depth = s.depth + 1 }
      t ← perform fuel (limit_of max_do s.count) inside.queue inside
      some (leave (control_if_empty (record t { prio = pos 1 })))
    | false ↦ some (leave (record s { depth = s.depth + 1 }))
  ]
