-- ===== src/BroadcastPool/Counts.antt =====
-- The threads that have ended, that sleep, and the turns that they have left.
use linux_os_coding.Base.{
  ℕ, zero, suc, ◌+◌, ◌≤◌, ◌<◌, ◌≡◌, refl, ap, false, Run, ok, fault, ◌>>=◌, Option, none, some,
  List, [], ◌∷◌, ◌++◌, length, arith, inl, inr, ◌==◌, Bool-cases,
}
use linux_os_coding.Base.Int.{ℤ}
use linux_os_coding.Memory.{Ptr, null, Memory, load, free}
use linux_os_coding.BroadcastPool.{
  Thread, at_top, tested, waiting, woken, working, over, Shared, locked, go_on, test, serve,
  download_file, turn_of, broadcast,
}

abbrev pub sum_of : (Thread → ℕ) → List Thread → ℕ
sum_of f [] = 0
sum_of f (w ∷ ws) = f w + sum_of f ws

abbrev pub ended : Thread → ℕ
ended (at_top t) = 0
ended (tested t) = 0
ended (waiting t) = 0
ended (woken t) = 0
ended (working t) = 0
ended over = 1

-- The turns that a thread has left once the flag is down; `waiting` counts as woken.
abbrev pub weight : Thread → ℕ
weight (at_top t) = 1
weight (tested t) = 2
weight (waiting t) = 1
weight (woken t) = 1
weight (working t) = 2
weight over = 0

abbrev pub asleep : Thread → ℕ
asleep (at_top t) = 0
asleep (tested t) = 1
asleep (waiting t) = 1
asleep (woken t) = 0
asleep (working t) = 0
asleep over = 0

-- No thread waits or is about to.
abbrev pub Awake : List Thread → Type 0
Awake ws = sum_of asleep ws ≡ 0

pub unlocked : (ws : List Thread) → Awake ws → locked ws ≡ false
unlocked [] a = refl
unlocked (at_top t ∷ ws) a = unlocked ws (omega arith)
unlocked (tested t ∷ ws) a = absurd (omega arith)
unlocked (waiting t ∷ ws) a = absurd (omega arith)
unlocked (woken t ∷ ws) a = unlocked ws (omega arith)
unlocked (working t ∷ ws) a = unlocked ws (omega arith)
unlocked (over ∷ ws) a = unlocked ws (omega arith)

-- A turn of a worker that has met no freed memory.
abbrev pub Turned : List Thread → Shared → Option (Run (List Thread × Shared)) → Type 0
Turned ws s none = Unit
Turned ws s (some fault) = Unit
Turned ws s (some (ok (vs, s'))) =
    Awake vs
    × (sum_of ended vs + s.in_pipe ≡ s'.in_pipe + sum_of ended ws)
    × (suc (sum_of weight vs) ≡ sum_of weight ws)
    × (length vs ≡ length ws)

behind :
    (w : Thread) (ws : List Thread) (s : Shared) (o : Option (Run (List Thread × Shared)))
    → asleep w ≡ 0
    → Turned ws s o
    → Turned
        (w ∷ ws)
        s
        (elim o [ none ↦ none | some run ↦ some (run >>= λ (vs, s'). ok (w ∷ vs, s')) ])
behind w ws s none free t = tt
behind w ws s (some fault) free t = tt
behind w ws s (some (ok (vs, s'))) free (a, e, m, len) =
    (omega arith, omega arith, omega arith, ap suc len)

-- The two calls on the task.
both :
    (t : Option Ptr) (p : Ptr) (ws : List Thread) (s : Shared) (fd : Run ℤ) (h : Run (Memory ℤ))
    → Awake ws
    → Turned (working t ∷ ws) s (
        some (
          (fd >>= λ d.
          h >>= λ h'. ok (at_top (some p), record s { heap = h'; served = s.served ++ d ∷ [] }))
          >>= λ (v, s'). ok (v ∷ ws, s')))
both t p ws s fault h a = tt
both t p ws s (ok d) fault a = tt
both t p ws s (ok d) (ok h') a = (omega arith, omega arith, omega arith, refl)

served_lem :
    (t : Option Ptr) (ws : List Thread) (s : Shared)
    → Awake ws
    → Turned (working t ∷ ws) s (some (serve t s >>= λ (v, s'). ok (v ∷ ws, s')))
unfolding serve
served_lem none ws s a = tt
served_lem (some p) ws s a = elim (Bool-cases (p == null)) [
  | inl no_task ↦ rw no_task (omega arith, omega arith, omega arith, refl)
  | inr task ↦ rw task (both (some p) p ws s (load s.heap p) (free s.heap p) a)
]

pub turn_of-Turned :
    (i : ℕ) (ws : List Thread) (s : Shared) → Awake ws → Turned ws s (turn_of i false false ws s)
unfolding turn_of download_file test go_on
turn_of-Turned i [] s a = tt
turn_of-Turned zero (at_top t ∷ ws) s a = (omega arith, omega arith, omega arith, refl)
turn_of-Turned zero (tested t ∷ ws) s a = absurd (omega arith)
turn_of-Turned zero (waiting t ∷ ws) s a = tt
turn_of-Turned zero (woken t ∷ ws) s a = (omega arith, omega arith, omega arith, refl)
turn_of-Turned zero (working t ∷ ws) s a = served_lem t ws s (omega arith)
turn_of-Turned zero (over ∷ ws) s a = tt
turn_of-Turned (suc i) (w ∷ ws) s a =
    behind w ws s (turn_of i false false ws s) (omega arith) (turn_of-Turned i ws s (omega arith))

-- A worker that has not ended can make a turn.
pub some_turn :
    (ws : List Thread) (s : Shared)
    → Awake ws
    → sum_of ended ws < length ws
    → (i : ℕ) × (run : Run (List Thread × Shared)) × (turn_of i false false ws s ≡ some run)
unfolding turn_of download_file
some_turn [] s a less = absurd (omega arith)
some_turn (at_top t ∷ ws) s a less = (0, _, refl)
some_turn (tested t ∷ ws) s a less = absurd (omega arith)
some_turn (waiting t ∷ ws) s a less = absurd (omega arith)
some_turn (woken t ∷ ws) s a less = (0, _, refl)
some_turn (working t ∷ ws) s a less = (0, _, refl)
some_turn (over ∷ ws) s a less =
    let (i, run, e) = some_turn ws s (omega arith) (omega arith) in
    (suc i, (run >>= λ (vs, s'). ok (over ∷ vs, s')), rw (e, turn_of) refl)

pub most_ended : (ws : List Thread) → sum_of ended ws ≤ length ws
most_ended [] = omega arith
most_ended (at_top t ∷ ws) = omega (arith, most_ended ws)
most_ended (tested t ∷ ws) = omega (arith, most_ended ws)
most_ended (waiting t ∷ ws) = omega (arith, most_ended ws)
most_ended (woken t ∷ ws) = omega (arith, most_ended ws)
most_ended (working t ∷ ws) = omega (arith, most_ended ws)
most_ended (over ∷ ws) = omega (arith, most_ended ws)

pub woken_lem :
    (ws : List Thread)
    → locked ws ≡ false
    → Awake (broadcast ws)
      × (sum_of ended (broadcast ws) ≡ sum_of ended ws)
      × (sum_of weight (broadcast ws) ≡ sum_of weight ws)
      × (length (broadcast ws) ≡ length ws)
unfolding broadcast
woken_lem [] l = (refl, refl, refl, refl)
woken_lem (tested t ∷ ws) l = ground (arith, l)
woken_lem (at_top t ∷ ws) l =
    let (a, e, w, n) = woken_lem ws l in (omega arith, omega arith, omega arith, ap suc n)
woken_lem (waiting t ∷ ws) l =
    let (a, e, w, n) = woken_lem ws l in (omega arith, omega arith, omega arith, ap suc n)
woken_lem (woken t ∷ ws) l =
    let (a, e, w, n) = woken_lem ws l in (omega arith, omega arith, omega arith, ap suc n)
woken_lem (working t ∷ ws) l =
    let (a, e, w, n) = woken_lem ws l in (omega arith, omega arith, omega arith, ap suc n)
woken_lem (over ∷ ws) l =
    let (a, e, w, n) = woken_lem ws l in (omega arith, omega arith, omega arith, ap suc n)
