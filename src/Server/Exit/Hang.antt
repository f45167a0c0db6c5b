-- ===== src/Server/Exit/Hang.antt =====
-- The exit of a pool with a worker that is at work.
use linux_os_coding.Base.{
  ℕ, zero, suc, ◌≡◌, refl, ap, ◌∙◌, Option, none, some, List, [], ◌∷◌, ◌++◌, map, replicate,
  append-nil,
}
use linux_os_coding.Queue.{exit_task}
use linux_os_coding.Queue.Store.{Task}
use linux_os_coding.Server.Exit.{
  Thread, waiting, woken, working, over, received, pop_task, worker, wake, order_exit, turn_of,
  turns,
}

-- The workers below `n`, each once.
abbrev pub each_once : ℕ → List ℕ
each_once zero = []
each_once (suc n) = 0 ∷ map suc (each_once n)

abbrev Next : Type 0
Next = Option (List Thread × List Task)

abbrev continued : List ℕ → Next → Next
continued is none = none
continued is (some r) = turns is r.0 r.1

abbrev in_front : Thread → Next → Next
in_front w none = none
in_front w (some r) = some (w ∷ r.0, r.1)

abbrev resumed : List ℕ → Thread → Next → Next
resumed js w none = none
resumed js w (some r) = turns js (w ∷ r.0) r.1

turns-behind :
    (is js : List ℕ) (w : Thread) (ws : List Thread) (q : List Task)
    → turns (map suc is ++ js) (w ∷ ws) q ≡ resumed js w (turns is ws q)
unfolding turns turn_of
turns-behind [] js w ws q = refl
turns-behind (i ∷ is) js w ws q = go (turn_of i ws q) (λ r. turns-behind is js w r.0 r.1)
  where
    go :
        (o : Next)
        → ((r : List Thread × List Task)
            → turns (map suc is ++ js) (w ∷ r.0) r.1 ≡ resumed js w (turns is r.0 r.1))
        → continued (map suc is ++ js) (in_front w o) ≡ resumed js w (continued is o)
    go none rest = refl
    go (some r) rest = rest r

-- Behind a worker whose part is done.
turns-on :
    (is js : List ℕ) (w : Thread) (ws ws' : List Thread) (q q' : List Task)
    → turns is ws q ≡ some (ws', q')
    → turns (map suc is ++ js) (w ∷ ws) q ≡ turns js (w ∷ ws') q'
turns-on is js w ws ws' q q' run = turns-behind is js w ws q ∙ rw run refl

each_last :
    (n : ℕ) (w : Thread) (ws ws' : List Thread) (q q' : List Task)
    → turns (each_once n) ws q ≡ some (ws', q')
    → turns (map suc (each_once n)) (w ∷ ws) q ≡ some (w ∷ ws', q')
each_last n w ws ws' q q' run =
    rw (append-nil (map suc (each_once n))) at (turns-on (each_once n) [] w ws ws' q q' run)
    ∙ (unfold turns in refl)

woken_end : (n : ℕ) → turns (each_once n) (replicate n woken) [] ≡ some (replicate n over, [])
unfolding turns turn_of worker pop_task
woken_end zero = refl
woken_end (suc n) = each_last n over (replicate n woken) (replicate n over) [] [] (woken_end n)

marker_end :
    (n : ℕ)
    → turns (each_once (suc n)) (replicate (suc n) woken) (exit_task ∷ [])
      ≡ some (replicate (suc n) over, [])
unfolding turns turn_of worker pop_task received
marker_end n = each_last n over (replicate n woken) (replicate n over) [] [] (woken_end n)

all_woken : (n : ℕ) → map wake (replicate n waiting) ≡ replicate n woken
all_woken zero = refl
all_woken (suc n) = ap (λ ws. woken ∷ ws) (all_woken n)

none_moves : (n i : ℕ) → turn_of i (replicate n over) [] ≡ none
unfolding turn_of worker
none_moves zero i = refl
none_moves (suc n) zero = refl
none_moves (suc n) (suc i) = rw (none_moves n i) refl

last_waits : (n i : ℕ) → turn_of i (waiting ∷ replicate n over) [] ≡ none
unfolding turn_of worker
last_waits n zero = refl
last_waits n (suc i) = rw (none_moves n i, turn_of) refl

back_to_wait :
    (t : Task) (ws : List Thread) → turns (0 ∷ 0 ∷ []) (working t ∷ ws) [] ≡ some (waiting ∷ ws, [])
unfolding turns turn_of worker
back_to_wait t ws = refl

-- When the order to exit comes while one worker is at work and one or more others wait at the empty
-- queue, there is a schedule after which the others have ended, the one worker waits, and no worker can
-- make a turn any more, so that the join of that worker does not return.
pub order_exit-hangs :
    (t : Task) (n : ℕ)
    → (is : List ℕ) × ((let p =
            order_exit (record { queue = []; threads = working t ∷ replicate (suc n) waiting }) in
          turns is p.threads p.queue)
        ≡ some (waiting ∷ replicate (suc n) over, []))
      × ((i : ℕ) → turn_of i (waiting ∷ replicate (suc n) over) [] ≡ none)
unfolding order_exit
order_exit-hangs t n = (
  map suc (each_once (suc n)) ++ 0 ∷ 0 ∷ [],
  ap (λ ws. turns (map suc (each_once (suc n)) ++ 0 ∷ 0 ∷ []) (working t ∷ ws) (exit_task ∷ []))
        (all_woken (suc n))
      ∙ turns-on (each_once (suc n)) (0 ∷ 0 ∷ []) (working t) (replicate (suc n) woken)
          (replicate (suc n) over) (exit_task ∷ []) [] (marker_end n)
      ∙ back_to_wait t (replicate (suc n) over),
  last_waits (suc n),
)
