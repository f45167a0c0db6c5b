-- ===== src/Server/Exit/Ends.antt =====
-- The exit of a pool whose workers all wait.
use linux_os_coding.Base.{
  ℕ, zero, suc, ◌+◌, ◌≡◌, refl, ap, Bool, true, false, Option, none, some, List, [], ◌∷◌, map,
  length, arith, inl, inr, ◌⊎◌,
}
use linux_os_coding.Queue.{exit_task}
use linux_os_coding.Queue.Store.{Task}
use linux_os_coding.Server.Exit.{
  Thread, at_top, waiting, woken, working, over, received, pop_task, worker, wake, order_exit,
  turn_of, turns,
}

-- The threads that `pthread_join` still waits for.
abbrev pub alive : List Thread → ℕ
alive [] = 0
alive (at_top ∷ ws) = suc (alive ws)
alive (waiting ∷ ws) = suc (alive ws)
alive (woken ∷ ws) = suc (alive ws)
alive (working t ∷ ws) = suc (alive ws)
alive (over ∷ ws) = alive ws

-- Woken or past the end.
abbrev leaving : Thread → Bool
leaving at_top = false
leaving waiting = false
leaving woken = true
leaving (working t) = false
leaving over = true

abbrev Leaving : List Thread → Type 0
Leaving [] = Unit
Leaving (w ∷ ws) = (leaving w ≡ true) × Leaving ws

-- At most the marker is left.
abbrev Empties : List Task → Type 0
Empties q = (q ≡ []) ⊎ (q ≡ exit_task ∷ [])

marker_ends : received exit_task ≡ over
unfolding received
marker_ends = refl

woken_ends :
    (q : List Task) → Empties q → (q' : List Task) × (worker woken q ≡ some (over, q')) × Empties q'
unfolding worker pop_task
woken_ends q (inl e) = ([], rw e refl, inl refl)
woken_ends q (inr e) = ([], rw (e, marker_ends) refl, inl refl)

-- What a turn leaves, where it can be made: one thread less is alive.
abbrev Fewer : List Thread → Option (List Thread × List Task) → Type 0
Fewer ws none = Unit
Fewer ws (some r) = Leaving r.0 × Empties r.1 × (suc (alive r.0) ≡ alive ws)

behind :
    (w : Thread) (ws : List Thread) (o : Option (List Thread × List Task))
    → leaving w ≡ true
    → Fewer ws o
    → Fewer (w ∷ ws) (elim o [ none ↦ none | some r ↦ some (w ∷ r.0, r.1) ])
behind w ws none l f = tt
behind at_top ws (some r) l (lr, er, n) = ground arith
behind waiting ws (some r) l (lr, er, n) = ground arith
behind woken ws (some r) l (lr, er, n) = ((l, lr), er, ap suc n)
behind (working t) ws (some r) l (lr, er, n) = ground arith
behind over ws (some r) l (lr, er, n) = ((l, lr), er, n)

turn_of-Fewer :
    (i : ℕ) (ws : List Thread) (q : List Task) → Leaving ws → Empties q → Fewer ws (turn_of i ws q)
unfolding turn_of
turn_of-Fewer i [] q l e = tt
turn_of-Fewer zero (at_top ∷ ws) q l e = ground (arith, l.0)
turn_of-Fewer zero (waiting ∷ ws) q l e = ground (arith, l.0)
turn_of-Fewer zero (woken ∷ ws) q l e =
    let (q', run, e') = woken_ends q e in rw (run, turn_of) ((refl, l.1), e', refl)
turn_of-Fewer zero (working t ∷ ws) q l e = ground (arith, l.0)
turn_of-Fewer zero (over ∷ ws) q l e = unfold worker in tt
turn_of-Fewer (suc i) (w ∷ ws) q l e = behind w ws (turn_of i ws q) l.0 (turn_of-Fewer i ws q l.1 e)

-- Who is alive can make a turn.
some_turn :
    (ws : List Thread) (q : List Task)
    → Leaving ws
    → Empties q
    → (alive ws ≡ 0) ⊎ ((i : ℕ) × (r : List Thread × List Task) × (turn_of i ws q ≡ some r))
unfolding turn_of
some_turn [] q l e = inl refl
some_turn (at_top ∷ ws) q l e = ground (arith, l.0)
some_turn (waiting ∷ ws) q l e = ground (arith, l.0)
some_turn (woken ∷ ws) q l e =
    let (q', run, e') = woken_ends q e in inr (0, (over ∷ ws, q'), rw (run, turn_of) refl)
some_turn (working t ∷ ws) q l e = ground (arith, l.0)
some_turn (over ∷ ws) q l e = elim (some_turn ws q l.1 e) [
  | inl none_left ↦ inl none_left
  | inr (i, r, run) ↦ inr (suc i, (over ∷ r.0, r.1), rw (run, turn_of) refl)
]

-- All that a schedule leaves.
abbrev Drained : ℕ → List Thread → Option (List Thread × List Task) → Type 0
Drained n ws none = Unit
Drained n ws (some r) = Leaving r.0 × Empties r.1 × (n + alive r.0 ≡ alive ws)

one_more :
    (k : ℕ) (ws vs : List Thread) (o : Option (List Thread × List Task))
    → suc (alive vs) ≡ alive ws
    → Drained k vs o
    → Drained (suc k) ws o
one_more k ws vs none n d = tt
one_more k ws vs (some r) n (l, e, m) = (l, e, omega arith)

turns-Drained :
    (is : List ℕ) (ws : List Thread) (q : List Task)
    → Leaving ws
    → Empties q
    → Drained (length is) ws (turns is ws q)
unfolding turns
turns-Drained [] ws q l e = (l, e, omega arith)
turns-Drained (i ∷ is) ws q l e =
    go is ws (turn_of i ws q) (turn_of-Fewer i ws q l e) (λ r lr er. turns-Drained is r.0 r.1 lr er)
  where
    go :
        (is : List ℕ) (ws : List Thread) (o : Option (List Thread × List Task))
        → Fewer ws o
        → ((r : List Thread × List Task)
            → Leaving r.0
            → Empties r.1
            → Drained (length is) r.0 (turns is r.0 r.1))
        → Drained (suc (length is)) ws (elim o [ none ↦ none | some r ↦ turns is r.0 r.1 ])
    go is ws none f rest = tt
    go is ws (some r) (lr, er, n) rest =
        one_more (length is) ws r.0 (turns is r.0 r.1) n (rest r lr er)

abbrev pub idle : Thread → Bool
idle at_top = false
idle waiting = true
idle woken = false
idle (working t) = false
idle over = true

abbrev pub AllIdle : List Thread → Type 0
AllIdle [] = Unit
AllIdle (w ∷ ws) = (idle w ≡ true) × AllIdle ws

wake-Leaving :
    (ws : List Thread) → AllIdle ws → Leaving (map wake ws) × (alive (map wake ws) ≡ alive ws)
wake-Leaving [] a = (tt, refl)
wake-Leaving (at_top ∷ ws) a = ground (arith, a.0)
wake-Leaving (waiting ∷ ws) a = let (l, n) = wake-Leaving ws a.1 in ((refl, l), ap suc n)
wake-Leaving (woken ∷ ws) a = ground (arith, a.0)
wake-Leaving (working t ∷ ws) a = ground (arith, a.0)
wake-Leaving (over ∷ ws) a = let (l, n) = wake-Leaving ws a.1 in ((refl, l), n)

-- When the order to exit comes to an empty queue whose workers all wait or have ended, then after the
-- turns of any schedule as many workers have ended as turns were made, and some worker can make a turn
-- unless all have ended: so all of them end, whatever the order of their turns.
pub order_exit-ends :
    (ws : List Thread) (is : List ℕ) (r : List Thread × List Task)
    → AllIdle ws
    → (let p = order_exit (record { queue = []; threads = ws }) in turns is p.threads p.queue)
      ≡ some r
    → (length is + alive r.0 ≡ alive ws)
      × ((alive r.0 ≡ 0)
          ⊎ ((i : ℕ) × (r' : List Thread × List Task) × (turn_of i r.0 r.1 ≡ some r')))
unfolding order_exit
order_exit-ends ws is r a run =
    let (l, n) = wake-Leaving ws a in
    let d = rw run at (turns-Drained is (map wake ws) (exit_task ∷ []) l (inr refl)) in
    (omega (arith, d.2, n), some_turn r.0 r.1 d.0 d.1)
