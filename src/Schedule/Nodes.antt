-- ===== src/Schedule/Nodes.antt =====
-- The list as a set of nodes: addresses that differ, and what `move_out` does to it.
use highwire.Common.{ℕ, suc, ◌%◌, ◌^◌, List, [], ◌∷◌, ◌++◌, some, ◌≡◌, ◌≢◌, refl, ap, arith, length}
use highwire.Schedule.{Job, Sched, unlink, node_at, next_of}

-- no node of the queue has this address
abbrev pub IsFresh : ℕ → List Job → Type 0
IsFresh a [] = Unit
IsFresh a (q ∷ queue) = (q.addr ≢ a) × IsFresh a queue

-- the addresses of the nodes differ
abbrev pub IsDistinct : List Job → Type 0
IsDistinct [] = Unit
IsDistinct (q ∷ queue) = IsFresh q.addr queue × IsDistinct queue

pub IsFresh-front :
    (a : ℕ) (front : List Job) (q : Job) (back : List Job)
    → IsFresh a (front ++ q ∷ back)
    → (q.addr ≢ a) × IsFresh a (front ++ back)
IsFresh-front a [] q back h = h
IsFresh-front a (x ∷ front) q back h =
    let (e, f) = IsFresh-front a front q back h.1 in (e, (h.0, f))

pub IsDistinct-remove :
    (front : List Job) (q : Job) (back : List Job)
    → IsDistinct (front ++ q ∷ back)
    → IsDistinct (front ++ back)
IsDistinct-remove [] q back h = h.1
IsDistinct-remove (x ∷ front) q back h =
    ((IsFresh-front x.addr front q back h.0).1, IsDistinct-remove front q back h.1)

pub unlink-middle :
    (front : List Job) (q : Job) (back : List Job)
    → IsDistinct (front ++ q ∷ back)
    → unlink q.addr (front ++ q ∷ back) ≡ some (front ++ back)
unfolding unlink
unlink-middle [] q back h = ground arith
unlink-middle (x ∷ front) q back h =
    ground (arith, unlink-middle front q back h.1, (IsFresh-front x.addr front q back h.0).0)

pub node_at-middle :
    (front : List Job) (q : Job) (back : List Job)
    → IsDistinct (front ++ q ∷ back)
    → node_at q.addr (front ++ q ∷ back) ≡ some (q, next_of back)
unfolding node_at
node_at-middle [] q back h = ground arith
node_at-middle (x ∷ front) q back h =
    ground (arith, node_at-middle front q back h.1, (IsFresh-front x.addr front q back h.0).0)

pub length-middle :
    (front : List Job) (q : Job) (back : List Job)
    → length (front ++ q ∷ back) ≡ suc (length (front ++ back))
length-middle [] q back = refl
length-middle (x ∷ front) q back = ap suc (length-middle front q back)

-- `__cnt` is the length of the list.
abbrev pub IsCounted : {W : Type 0} → Sched W → Type 0
IsCounted s = s.count ≡ length s.queue % 2 ^ 32
