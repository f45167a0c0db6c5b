-- ===== src/ThreadPool/Counts.antt =====
-- The counts of the threads that have ended, that wait, and of the turns that they have left.
use linux_os_coding.Base.{
  ℕ, zero, suc, ◌+◌, ◌≤◌, ◌<◌, ◌≡◌, refl, ap, Bool, true, false, ◌||◌, Option, none, some, List, [],
  ◌∷◌, length, arith, inl, inr, ◌⊎◌,
}
use linux_os_coding.Base.Int.{ℤ}
use linux_os_coding.ThreadPool.{
  holds_lock, Thread, at_top, tested, waiting, woken, working, over, locked, test, download_file,
  signal, turn_of,
}

abbrev pub sum_of : (Thread → ℕ) → List Thread → ℕ
sum_of f [] = 0
sum_of f (w ∷ ws) = f w + sum_of f ws

abbrev pub ended : Thread → ℕ
ended at_top = 0
ended tested = 0
ended waiting = 0
ended woken = 0
ended (working fd) = 0
ended over = 1

abbrev pub waits : Thread → ℕ
waits at_top = 0
waits tested = 0
waits waiting = 1
waits woken = 0
waits (working fd) = 0
waits over = 0

-- The turns that a thread has left, a signal for it among them.
abbrev pub weight : Thread → ℕ
weight at_top = 1
weight tested = 0
weight waiting = 2
weight woken = 1
weight (working fd) = 2
weight over = 0

-- What a turn of a worker leaves once the flag is down.
abbrev pub Turned : List Thread → Option (List Thread × List ℤ × ℕ) → Type 0
Turned ws none = Unit
Turned ws (some r) =
    (locked r.0 ≡ false)
    × (sum_of ended r.0 ≡ r.2 + sum_of ended ws)
    × (sum_of waits r.0 ≡ sum_of waits ws)
    × (suc (sum_of weight r.0) ≡ sum_of weight ws)
    × (length r.0 ≡ length ws)

no_lock : (a b : Bool) → (a || b) ≡ false → (a ≡ false) × (b ≡ false)
no_lock false b e = (refl, e)
no_lock true b e = ground arith

behind :
    (w : Thread) (ws : List Thread) (o : Option (List Thread × List ℤ × ℕ))
    → holds_lock w ≡ false
    → Turned ws o
    → Turned (w ∷ ws) (elim o [ none ↦ none | some r ↦ some (w ∷ r.0, r.1, r.2) ])
behind w ws none free t = tt
behind w ws (some r) free (l, e, n, m, len) =
    (rw (free, l) refl, omega arith, omega arith, omega arith, ap suc len)

pub turn_of-Turned :
    (i : ℕ) (ws : List Thread) (q : List ℤ)
    → locked ws ≡ false
    → Turned ws (turn_of i false false ws q)
unfolding turn_of download_file test
turn_of-Turned i [] q l = tt
turn_of-Turned zero (at_top ∷ ws) q l = (l, omega arith, refl, omega arith, refl)
turn_of-Turned zero (tested ∷ ws) q l = ground (arith, l)
turn_of-Turned zero (waiting ∷ ws) q l = tt
turn_of-Turned zero (woken ∷ ws) q l = (l, omega arith, refl, omega arith, refl)
turn_of-Turned zero (working fd ∷ ws) q l = (l, omega arith, refl, omega arith, refl)
turn_of-Turned zero (over ∷ ws) q l = tt
turn_of-Turned (suc i) (w ∷ ws) q l =
    let (free, l') = no_lock (holds_lock w) (locked ws) l in
    behind w ws (turn_of i false false ws q) free (turn_of-Turned i ws q l')

-- A thread that has neither ended nor waits can make a turn.
unfoldable pub Movable : List Thread → List ℤ → Type 0
Movable ws q = (i : ℕ) × (r : List Thread × List ℤ × ℕ) × (turn_of i false false ws q ≡ some r)

later : (w : Thread) (ws : List Thread) (q : List ℤ) → Movable ws q → Movable (w ∷ ws) q
unfolding turn_of Movable
later w ws q (i, r, run) = (suc i, (w ∷ r.0, r.1, r.2), rw (run, turn_of) refl)

pub some_turn :
    (ws : List Thread) (q : List ℤ)
    → locked ws ≡ false
    → sum_of ended ws + sum_of waits ws < length ws
    → Movable ws q
unfolding turn_of download_file Movable
some_turn [] q l less = absurd (omega arith)
some_turn (at_top ∷ ws) q l less = (0, _, refl)
some_turn (tested ∷ ws) q l less = ground (arith, l)
some_turn (waiting ∷ ws) q l less = later waiting ws q (some_turn ws q l (omega arith))
some_turn (woken ∷ ws) q l less = (0, _, refl)
some_turn (working fd ∷ ws) q l less = (0, _, refl)
some_turn (over ∷ ws) q l less = later over ws q (some_turn ws q l (omega arith))

-- What a signal changes: one thread less waits, if one did.
unfoldable pub Signalled : List Thread → List Thread → Type 0
Signalled ws vs =
    (locked vs ≡ locked ws)
    × (sum_of ended vs ≡ sum_of ended ws)
    × ((sum_of waits ws ≡ 0) ⊎ (suc (sum_of waits vs) ≡ sum_of waits ws))
    × (sum_of waits vs ≤ sum_of waits ws)
    × (sum_of weight vs ≤ sum_of weight ws)
    × (length vs ≡ length ws)

kept :
    (w : Thread) (ws vs : List Thread) → waits w ≡ 0 → Signalled ws vs → Signalled (w ∷ ws) (w ∷ vs)
unfolding Signalled
kept w ws vs none_waits (l, e, cases, n, m, len) = (
  ap (λ b. holds_lock w || b) l,
  omega arith,
  elim cases [ inl a ↦ inl (omega arith) | inr b ↦ inr (omega arith) ],
  omega arith,
  omega arith,
  ap suc len,
)

pub signal-Signalled : (ws : List Thread) → Signalled ws (signal ws)
unfolding signal
signal-Signalled [] = unfold Signalled in (refl, refl, inl refl, omega arith, omega arith, refl)
signal-Signalled (waiting ∷ ws) =
    unfold Signalled in (refl, omega arith, inr (omega arith), omega arith, omega arith, refl)
signal-Signalled (at_top ∷ ws) = kept at_top ws (signal ws) refl (signal-Signalled ws)
signal-Signalled (tested ∷ ws) = kept tested ws (signal ws) refl (signal-Signalled ws)
signal-Signalled (woken ∷ ws) = kept woken ws (signal ws) refl (signal-Signalled ws)
signal-Signalled (working fd ∷ ws) = kept (working fd) ws (signal ws) refl (signal-Signalled ws)
signal-Signalled (over ∷ ws) = kept over ws (signal ws) refl (signal-Signalled ws)

pub most_ended : (ws : List Thread) → sum_of ended ws ≤ length ws
most_ended [] = omega arith
most_ended (at_top ∷ ws) = let h = most_ended ws in omega arith
most_ended (tested ∷ ws) = let h = most_ended ws in omega arith
most_ended (waiting ∷ ws) = let h = most_ended ws in omega arith
most_ended (woken ∷ ws) = let h = most_ended ws in omega arith
most_ended (working fd ∷ ws) = let h = most_ended ws in omega arith
most_ended (over ∷ ws) = let h = most_ended ws in omega arith

pub few_wait : (ws : List Thread) → sum_of waits ws ≤ length ws
few_wait [] = omega arith
few_wait (at_top ∷ ws) = let h = few_wait ws in omega arith
few_wait (tested ∷ ws) = let h = few_wait ws in omega arith
few_wait (waiting ∷ ws) = let h = few_wait ws in omega arith
few_wait (woken ∷ ws) = let h = few_wait ws in omega arith
few_wait (working fd ∷ ws) = let h = few_wait ws in omega arith
few_wait (over ∷ ws) = let h = few_wait ws in omega arith
