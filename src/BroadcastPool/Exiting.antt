-- ===== src/BroadcastPool/Exiting.antt =====
-- The state of the exit behind the broadcast, and what a turn makes of it.
use linux_os_coding.Base.{
  ℕ, zero, suc, ◌+◌, ◌≤◌, ◌≡◌, refl, false, Run, ok, fault, ◌>>=◌, Option, none, some, List, [],
  length, arith, inl, inr, ◌⊎◌,
}
use linux_os_coding.Base.Int.{ℤ}
use linux_os_coding.Memory.{Memory}
use linux_os_coding.BroadcastPool.{
  Thread, Shared, Pool, Main, listening, inserted, ordered, joining, returned, turn_of, delete, Who,
  connection, order, main_thread, by_worker, accept, order_exit, join_next, main_turn, step,
}
use linux_os_coding.BroadcastPool.Counts.{
  sum_of, ended, weight, Awake, unlocked, Turned, turn_of-Turned, some_turn, most_ended,
}

abbrev pub joins_left : Main → ℕ
joins_left listening = 0
joins_left inserted = 0
joins_left ordered = 0
joins_left (joining k) = suc k
joins_left returned = 0

-- The turns that all threads have left.
abbrev pub total : Pool → ℕ
total p = sum_of weight p.threads + joins_left p.main

-- The main thread's place with the identifiers in the pipe.
abbrev pub Counted : Main → (ended len in_pipe : ℕ) → Type 0
Counted listening e len n = ⊥
Counted inserted e len n = ⊥
Counted ordered e len n = ⊥
Counted (joining k) e len n = e + k ≡ len + n
Counted returned e len n = e ≡ len + n

pub record Exiting (p : Pool) : Type 0 where
  pub flag : p.work_flag ≡ false
  pub awake : Awake p.threads
  pub counted : Counted p.main (sum_of ended p.threads) (length p.threads) p.shared.in_pipe

abbrev pub After : ℕ → Option (Run Pool) → Type 0
After n none = Unit
After n (some fault) = Unit
After n (some (ok q)) = Exiting q × (suc (total q) ≤ n)

recount :
    (m : Main) (e e' len len' n n' : ℕ)
    → e' + n ≡ n' + e
    → len' ≡ len
    → Counted m e len n
    → Counted m e' len' n'
recount listening e e' len len' n n' en l c = c
recount inserted e e' len len' n n' en l c = c
recount ordered e e' len len' n n' en l c = c
recount (joining k) e e' len len' n n' en l c = omega arith
recount returned e e' len len' n n' en l c = omega arith

module _ (ws : List Thread) where
  abbrev leaving : Shared → Main → Pool
  leaving s m = record { shared = s; threads = ws; work_flag = false; main = m }

  joined :
      (s : Shared) (k n : ℕ)
      → s.in_pipe ≡ n
      → Exiting (leaving s (joining (suc k)))
      → After (total (leaving s (joining (suc k)))) (join_next k n (leaving s (joining (suc k))))
  joined s k zero e ex = tt
  joined s k (suc n) e ex = (
    record { flag = refl; awake = ex.awake; counted = omega (arith, ex.counted, e) },
    omega arith,
  )

  deleted :
      (s : Shared) (r : Run (Memory ℤ))
      → Exiting (leaving s (joining zero))
      → After (total (leaving s (joining zero))) (
          some (
            r >>= λ h. ok (record (leaving s (joining zero)) {
              shared = record s { task_q = []; heap = h };
              main = returned;
            })))
  deleted s fault ex = tt
  deleted s (ok h) ex =
      (record { flag = refl; awake = ex.awake; counted = omega (arith, ex.counted) }, omega arith)

  main-After :
      (s : Shared) (m : Main)
      → Exiting (leaving s m)
      → After (total (leaving s m)) (main_turn m (leaving s m))
  unfolding main_turn
  main-After s listening e = absurd e.counted
  main-After s inserted e = absurd e.counted
  main-After s ordered e = absurd e.counted
  main-After s returned e = tt
  main-After s (joining (suc k)) e = joined s k s.in_pipe refl e
  main-After s (joining zero) e = deleted s (delete s.task_q s.heap) e

  turned :
      (s : Shared) (m : Main) (o : Option (Run (List Thread × Shared)))
      → Exiting (leaving s m)
      → Turned ws s o
      → After (total (leaving s m)) (elim o [
        | none ↦ none
        | some run ↦
            some (run >>= λ (vs, s'). ok (record (leaving s m) { threads = vs; shared = s' }))
      ])
  turned s m none e t = tt
  turned s m (some fault) e t = tt
  turned s m (some (ok (vs, s'))) e (a, en, w, len) = (
    record {
      flag = refl;
      awake = a;
      counted =
          recount m (sum_of ended ws) (sum_of ended vs) (length ws) (length vs) s.in_pipe s'.in_pipe
            en len e.counted;
    },
    omega arith,
  )

  outside :
      (w : Who) (s : Shared) (m : Main)
      → Exiting (leaving s m)
      → After (total (leaving s m)) (step w (leaving s m))
  unfolding step accept order_exit
  outside (connection fd task) s listening e = absurd e.counted
  outside (connection fd task) s inserted e = tt
  outside (connection fd task) s ordered e = tt
  outside (connection fd task) s (joining k) e = tt
  outside (connection fd task) s returned e = tt
  outside order s listening e = absurd e.counted
  outside order s inserted e = tt
  outside order s ordered e = tt
  outside order s (joining k) e = tt
  outside order s returned e = tt
  outside main_thread s m e = main-After s m e
  outside (by_worker i) s m e =
      rw (unlocked ws e.awake, step)
        (turned s m (turn_of i false false ws s) e (turn_of-Turned i ws s e.awake))

  moved :
      (i : ℕ) (s : Shared) (m : Main) (run : Run (List Thread × Shared))
      → Exiting (leaving s m)
      → turn_of i false false ws s ≡ some run
      → step (by_worker i) (leaving s m)
        ≡ some (run >>= λ (vs, s'). ok (record (leaving s m) { threads = vs; shared = s' }))
  unfolding step
  moved i s m run ex e = rw (unlocked ws ex.awake, e, step) refl

  -- The pool has come to its end, or some thread can make a turn.
  goes :
      (s : Shared) (m : Main)
      → Exiting (leaving s m)
      → ((m ≡ returned) × (sum_of ended ws ≡ length ws))
        ⊎ ((w : Who) × (r : Run Pool) × (step w (leaving s m) ≡ some r))
  unfolding step main_turn
  goes s listening e = absurd e.counted
  goes s inserted e = absurd e.counted
  goes s ordered e = absurd e.counted
  goes s returned e = inl (refl, omega (arith, most_ended ws, e.counted))
  goes s (joining zero) e = inr (main_thread, _, refl)
  goes s (joining (suc k)) e = pipe s.in_pipe refl
    where
      pipe :
          (n : ℕ)
          → s.in_pipe ≡ n
          → ((joining (suc k) ≡ returned) × (sum_of ended ws ≡ length ws))
            ⊎ ((w : Who) × (r : Run Pool) × (step w (leaving s (joining (suc k))) ≡ some r))
      pipe zero empty =
          let (i, run, turn) = some_turn ws s e.awake (omega (arith, e.counted, empty)) in
          inr (by_worker i, _, moved i s (joining (suc k)) run e turn)
      pipe (suc n) written = inr (
        main_thread,
        ok (record (leaving s (joining k)) { shared = record s { in_pipe = n } }),
        rw written refl,
      )

pub any_step : (w : Who) (p : Pool) → Exiting p → After (total p) (step w p)
any_step w p e =
    let q = leaving p.threads p.shared p.main in
    let flag_down : p ≡ q = λ i. record p { work_flag = e.flag i } in
    rw flag_down (outside p.threads w p.shared p.main (rw flag_down at e))

abbrev pub Goes : Pool → Type 0
Goes g =
    ((g.main ≡ returned) × (sum_of ended g.threads ≡ length g.threads))
    ⊎ ((w : Who) × (r : Run Pool) × (step w g ≡ some r))

pub can_go : (p : Pool) → Exiting p → Goes p
can_go p e =
    let q = leaving p.threads p.shared p.main in
    let flag_down : p ≡ q = λ i. record p { work_flag = e.flag i } in
    rw flag_down (goes p.threads p.shared p.main (rw flag_down at e))
