-- ===== src/Schedule/Clear.antt =====
-- `sched_clear`: the jobs of a hash are called once each and unlinked.
use mathlib.Core.List.{append_assoc}
use highwire.Common.{
  ℕ, zero, suc, ◌+◌, ◌<◌, none, List, [], ◌∷◌, ◌++◌, some, ◌≡◌, refl, sym, ap, ◌∙◌, inl, inr, arith,
  length, ◌==◌, if◌then◌else◌, Bool-cases,
}
use highwire.Common.Int.{ℤ}
use highwire.Schedule.{
  Job, Sched, Runner, count_down, next_of, node_at, move_out, control_if_empty, clear_from,
  sched_clear,
}
use highwire.Schedule.Nodes.{
  IsFresh, IsDistinct, IsDistinct-remove, unlink-middle, node_at-middle, length-middle, IsCounted,
}

-- the jobs of other hashes
abbrev pub spared : ℕ → List Job → List Job
spared hash [] = []
spared hash (q ∷ queue) = let rest = spared hash queue in if q.hash == hash then rest else q ∷ rest

abbrev pub struck : ℕ → List Job → ℕ
struck hash [] = 0
struck hash (q ∷ queue) = let rest = struck hash queue in if q.hash == hash then suc rest else rest

module _ {W : Type 0} (result : Job → ℤ) (act : Job → W → W) where
  -- jobs that see and change nothing of the scheduler
  unfoldable pub outside : Runner W
  outside job hash s = some (result job, record s { world = act job s.world })

  -- what the jobs of the hash do, in the order of the queue
  abbrev pub effect : ℕ → List Job → W → W
  effect hash [] w = w
  effect hash (q ∷ queue) w = effect hash queue (if q.hash == hash then act q w else w)

  clear_from-outside :
      (hash fuel : ℕ) (kept next : List Job) (num : ℕ) (s : Sched W)
      → length next < fuel
      → s.queue ≡ kept ++ next
      → IsDistinct (kept ++ next)
      → IsCounted s
      → (after : Sched W) × (clear_from outside fuel hash (next_of next) num s
          ≡ some (num + struck hash next, after))
        × (after.queue ≡ kept ++ spared hash next)
        × IsCounted after
        × (after.world ≡ effect hash next s.world)
  unfolding clear_from move_out outside
  clear_from-outside hash zero kept next num s f e d c = absurd (omega arith)
  clear_from-outside hash (suc fuel) kept [] num s f e d c = (s, ground arith, e, c, refl)
  clear_from-outside hash (suc fuel) kept (q ∷ next) num s f e d c =
      elim (Bool-cases (q.hash == hash)) [
        | inl hit ↦
            let t = record s {
              queue = kept ++ next;
              count = count_down s.count;
              world = act q s.world;
            } in
            let (after, ends, now, counted, w) =
              clear_from-outside hash fuel kept next (num + 1) (control_if_empty t) (omega arith)
                (ground arith) (IsDistinct-remove kept q next d)
                (ground (arith, length-middle kept q next, ap length e)) in
            (
              after,
              ground (arith, ends, unlink-middle kept q next d, node_at-middle kept q next d),
              ground (arith, now),
              counted,
              ground (arith, w),
            )
        | inr miss ↦
            let (after, ends, now, counted, w) =
              clear_from-outside hash fuel (kept ++ q ∷ []) next num s (omega arith)
                (e ∙ sym (append_assoc kept (q ∷ []) next)) (rw append_assoc d) c in
            (
              after,
              ground (arith, ends, node_at-middle kept q next d),
              rw miss (now ∙ append_assoc kept (q ∷ []) (spared hash next)),
              counted,
              ground (arith, w),
            )
      ]

  -- If the jobs leave the scheduler alone, `sched_clear` comes to its end, calls the jobs of the
  -- hash once each in the order of the queue, unlinks exactly those, and returns their number. The
  -- nodes have different addresses, `__cnt` is their number, and the fuel is more than that.
  pub sched_clear-outside :
      (hash fuel : ℕ) (s : Sched W)
      → length s.queue < fuel
      → IsDistinct s.queue
      → IsCounted s
      → (after : Sched W) × (sched_clear outside fuel hash s ≡ some (struck hash s.queue, after))
        × (after.queue ≡ spared hash s.queue)
        × IsCounted after
        × (after.world ≡ effect hash s.queue s.world)
  unfolding sched_clear
  sched_clear-outside hash fuel s f d c =
      let (after, ends, now, counted, w) = clear_from-outside hash fuel [] s.queue 0 s f refl d c in
      (after, ground (arith, ends), now, counted, w)

node_at_fresh : (a : ℕ) (queue : List Job) → IsFresh a queue → node_at a queue ≡ none
unfolding node_at
node_at_fresh a [] h = refl
node_at_fresh a (q ∷ queue) h = ground (arith, node_at_fresh a queue h.1)

-- If the first job has the hash and unlinks its successor, as `sched_remove` can do in its name, and
-- stays in the list itself, the loop is left with a dangling pointer: `sched_clear` faults, whatever
-- the fuel.
pub sched_clear_dangling :
    {W : Type 0} (run : Runner W) (fuel hash : ℕ) (a b : Job) (rest left : List Job) (s t : Sched W)
    (r : ℤ)
    → s.queue ≡ a ∷ b ∷ rest
    → a.hash ≡ hash
    → run a hash s ≡ some (r, t)
    → t.queue ≡ a ∷ left
    → IsFresh b.addr left
    → sched_clear run fuel hash s ≡ none
unfolding sched_clear clear_from move_out node_at
sched_clear_dangling run zero hash a b rest left s t r e h ran q fresh = refl
sched_clear_dangling run (suc zero) hash a b rest left s t r e h ran q fresh =
    ground (arith, e, h, ran, q)
sched_clear_dangling run (suc (suc fuel)) hash a b rest left s t r e h ran q fresh =
    ground (arith, e, h, ran, q, node_at_fresh b.addr left fresh)
