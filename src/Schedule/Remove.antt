-- ===== src/Schedule/Remove.antt =====
-- `sched_remove`: exactly the wanted jobs leave, and the timer is stopped with the last one.
use mathlib.Core.List.{append_assoc}
use highwire.Common.{
  ℕ, suc, ◌+◌, true, false, not, ◌&&◌, List, [], ◌∷◌, ◌++◌, some, ◌≡◌, refl, sym, ap, ◌∙◌, inl, inr,
  arith, length, ltb, ◌==◌, if◌then◌else◌, Bool-cases,
}
use highwire.Common.Int.{negsuc}
use highwire.Schedule.{
  Job, Sched, is_wanted, is_empty, count_down, move_out, control_if_empty, remove_from,
  sched_remove,
}
use highwire.Schedule.Nodes.{IsDistinct, IsDistinct-remove, unlink-middle, length-middle, IsCounted}

nil_of_is_empty : (kept next : List Job) → is_empty (kept ++ next) ≡ true → next ≡ []
nil_of_is_empty [] [] h = refl
nil_of_is_empty [] (q ∷ next) h = cc
nil_of_is_empty (k ∷ kept) next h = cc

module _ (func value : ℕ) where
  -- the jobs that stay
  abbrev pub others : List Job → List Job
  others [] = []
  others (q ∷ queue) = let rest = others queue in if is_wanted func value q then rest else q ∷ rest

  -- how many leave
  abbrev pub wanted : List Job → ℕ
  wanted [] = 0
  wanted (q ∷ queue) = let rest = wanted queue in if is_wanted func value q then suc rest else rest

  pub others-of_none : (queue : List Job) → wanted queue ≡ 0 → others queue ≡ queue
  others-of_none [] h = refl
  others-of_none (q ∷ queue) h = ground (arith, others-of_none queue)

  module _ {W : Type 0} where
    -- The state that the loop ends in, from `s` with the nodes `kept` behind it and `next` ahead.
    pub record Removed (kept next : List Job) (s after : Sched W) : Type 0 where
      pub queue : after.queue ≡ kept ++ others next
      pub counted : IsCounted after
      pub calls : after.calls ≡ (
          if not (s.on_off == 0) && is_empty (kept ++ others next) && ltb 0 (wanted next)
          then (s.on_off, negsuc 0) ∷ s.calls
          else s.calls)
      pub on_off : after.on_off ≡ s.on_off
      pub prio : after.prio ≡ s.prio
      pub depth : after.depth ≡ s.depth
      pub world : after.world ≡ s.world

    Removed-hit :
        (kept : List Job) (q : Job) (next : List Job) (s after : Sched W)
        → is_wanted func value q ≡ true
        → Removed kept next
            (control_if_empty (record s { queue = kept ++ next; count = count_down s.count }))
            after
        → Removed kept (q ∷ next) s after
    Removed-hit kept q next s after want r = record {
      queue = rw want r.queue;
      counted = r.counted;
      calls = ground (arith, r.calls, others-of_none next, nil_of_is_empty kept next);
      on_off = ground (arith, r.on_off);
      prio = ground (arith, r.prio);
      depth = ground (arith, r.depth);
      world = ground (arith, r.world);
    }

    Removed-miss :
        (kept : List Job) (q : Job) (next : List Job) (s after : Sched W)
        → is_wanted func value q ≡ false
        → Removed (kept ++ q ∷ []) next s after
        → Removed kept (q ∷ next) s after
    Removed-miss kept q next s after other r = record {
      queue = rw other (r.queue ∙ append_assoc kept (q ∷ []) (others next));
      counted = r.counted;
      calls = rw other (rw (append_assoc kept (q ∷ []) (others next)) at r.calls);
      on_off = r.on_off;
      prio = r.prio;
      depth = r.depth;
      world = r.world;
    }

    remove_from-Removed :
        (kept next : List Job) (num : ℕ) (s : Sched W)
        → s.queue ≡ kept ++ next
        → IsDistinct (kept ++ next)
        → IsCounted s
        → (after : Sched W) × (remove_from func value next num s ≡ some (num + wanted next, after))
          × Removed kept next s after
    unfolding remove_from move_out
    remove_from-Removed kept [] num s e d c = (
      s,
      ground arith,
      record {
        queue = e;
        counted = c;
        calls = ground arith;
        on_off = refl;
        prio = refl;
        depth = refl;
        world = refl;
      },
    )
    remove_from-Removed kept (q ∷ next) num s e d c = elim (Bool-cases (is_wanted func value q)) [
      | inl want ↦
          let t = record s { queue = kept ++ next; count = count_down s.count } in
          let (after, ends, r) =
            remove_from-Removed kept next (num + 1) (control_if_empty t) (ground arith)
              (IsDistinct-remove kept q next d)
              (ground (arith, length-middle kept q next, ap length e)) in
          (
            after,
            ground (arith, ends, unlink-middle kept q next d),
            Removed-hit kept q next s after want r,
          )
      | inr other ↦
          let (after, ends, r) =
            remove_from-Removed (kept ++ q ∷ []) next num s
              (e ∙ sym (append_assoc kept (q ∷ []) next)) (rw append_assoc d) c in
          (after, rw (other, remove_from) ends, Removed-miss kept q next s after other r)
    ]

    -- `sched_remove` returns how many jobs it was asked for, and leaves the others in their order.
    -- It stops the timer once if it removed the last job, and otherwise leaves it alone. The nodes
    -- have different addresses and `__cnt` is their number.
    pub sched_remove-Removed :
        (s : Sched W)
        → IsDistinct s.queue
        → IsCounted s
        → (after : Sched W) × (sched_remove func value s ≡ some (wanted s.queue, after))
          × Removed [] s.queue s after
    unfolding sched_remove
    sched_remove-Removed s d c =
        let (after, ends, r) = remove_from-Removed [] s.queue 0 s refl d c in
        (after, ground (arith, ends), r)
