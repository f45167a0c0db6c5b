-- ===== src/ThreadPool/Joins.antt =====
-- The exit loop of the main thread with the workers.
use linux_os_coding.Base.{
  ℕ, zero, suc, ◌+◌, ◌*◌, ◌≤◌, ◌≡◌, refl, ◌∙◌, Bool, true, false, Option, none, some, List, [], ◌∷◌,
  length, arith, inl, inr, ◌⊎◌,
}
use linux_os_coding.Base.Int.{ℤ}
use linux_os_coding.ThreadPool.{
  Thread, Factory, locked, signal, turn_of, main_joins, Who, main, thread, step, steps, order_exit,
}
use linux_os_coding.ThreadPool.Counts.{
  most_ended, few_wait, sum_of, ended, waits, weight, Turned, turn_of-Turned, Movable, some_turn,
  Signalled, signal-Signalled,
}

abbrev pub turns_left : (joins : ℕ) → (signalled : Bool) → ℕ
turns_left zero s = 0
turns_left (suc k) false = 2 * k + 2
turns_left (suc k) true = 2 * k + 1

abbrev pub one_if : Bool → ℕ
one_if false = 0
one_if true = 1

-- The turns that all threads have left.
abbrev pub total : Factory → ℕ
total f = sum_of weight f.threads + turns_left f.joins f.signalled

-- As many threads have ended as are joined or have written to the pipe, and no more wait than there are
-- signals to come.
record Exiting (f : Factory) : Type 0 where
  flag : f.work_flag ≡ false
  free : locked f.threads ≡ false
  counted : sum_of ended f.threads + f.joins ≡ length f.threads + f.in_pipe
  enough : sum_of waits f.threads + one_if f.signalled ≤ f.joins

abbrev After : ℕ → Option Factory → Type 0
After n none = Unit
After n (some g) = Exiting g × (suc (total g) ≤ n)

module _ (q : List ℤ) (ws : List Thread) where
  abbrev leaving : ℕ → ℕ → Bool → Factory
  leaving n j s = record {
    task_q = q;
    threads = ws;
    work_flag = false;
    in_pipe = n;
    joins = j;
    signalled = s;
  }

  main-After :
      (n j : ℕ) (s : Bool)
      → Exiting (leaving n j s)
      → After (total (leaving n j s)) (main_joins j s n (leaving n j s))
  unfolding Signalled
  main-After n zero s e = tt
  main-After n (suc k) false e =
      let (l, d, cases, fewer, m, len) = signal-Signalled ws in
      let waits_then : sum_of waits (signal ws) + 1 ≤ suc k = elim cases [
        | inl a ↦ omega (arith, e.enough)
        | inr b ↦ omega (arith, e.enough)
      ] in
      (
        record {
          flag = refl;
          free = l ∙ e.free;
          counted = omega (arith, e.counted);
          enough = waits_then;
        },
        omega arith,
      )
  main-After zero (suc k) true e = tt
  main-After (suc n) (suc k) true e = (
    record {
      flag = refl;
      free = e.free;
      counted = omega (arith, e.counted);
      enough = omega (arith, e.enough);
    },
    turns_less k,
  )
    where
      turns_less :
          (k : ℕ) → suc (sum_of weight ws + turns_left k false) ≤ sum_of weight ws + (2 * k + 1)
      turns_less zero = omega arith
      turns_less (suc k) = omega arith

  turned :
      (n j : ℕ) (s : Bool) (o : Option (List Thread × List ℤ × ℕ))
      → Exiting (leaving n j s)
      → Turned ws o
      → After (total (leaving n j s)) (elim o [
        | none ↦ none
        | some r ↦ some (record (leaving n j s) { threads = r.0; task_q = r.1; in_pipe = r.2 + n })
      ])
  turned n j s none e t = tt
  turned n j s (some r) e (l, d, w, m, len) = (
    record {
      flag = refl;
      free = l;
      counted = omega (arith, e.counted);
      enough = omega (arith, e.enough);
    },
    omega arith,
  )

  step-After :
      (w : Who) (n j : ℕ) (s : Bool)
      → Exiting (leaving n j s)
      → After (total (leaving n j s)) (step w (leaving n j s))
  unfolding step
  step-After main n j s e = main-After n j s e
  step-After (thread i) n j s e =
      rw (e.free, step) (turned n j s (turn_of i false false ws q) e (turn_of-Turned i ws q e.free))

  moved :
      (i n j : ℕ) (s : Bool) (r : List Thread × List ℤ × ℕ)
      → Exiting (leaving n j s)
      → turn_of i false false ws q ≡ some r
      → step (thread i) (leaving n j s)
        ≡ some (record (leaving n j s) { threads = r.0; task_q = r.1; in_pipe = r.2 + n })
  unfolding step
  moved i n j s r e run = rw (e.free, run, step) refl

  can_step :
      (n j : ℕ) (s : Bool)
      → Exiting (leaving n j s)
      → (j ≡ 0) ⊎ ((w : Who) × (g : Factory) × (step w (leaving n j s) ≡ some g))
  unfolding Movable step
  can_step n zero s e = inl refl
  can_step n (suc k) false e = inr (main, _, refl)
  can_step (suc n) (suc k) true e = inr (main, _, refl)
  can_step zero (suc k) true e =
      let (i, r, run) = some_turn ws q e.free (omega (arith, e.counted, e.enough)) in
      inr (thread i, _, moved i zero (suc k) true r e run)

any_step : (w : Who) (f : Factory) → Exiting f → After (total f) (step w f)
any_step w f e =
    let g = leaving f.task_q f.threads f.in_pipe f.joins f.signalled in
    let flag_down : f ≡ g = λ i. record f { work_flag = e.flag i } in
    rw flag_down (step-After f.task_q f.threads w f.in_pipe f.joins f.signalled (rw flag_down at e))

-- What a schedule leaves.
abbrev Left : ℕ → ℕ → Option Factory → Type 0
Left made n none = Unit
Left made n (some g) = Exiting g × (made + total g ≤ n)

one_more : (made n m : ℕ) (o : Option Factory) → suc m ≤ n → Left made m o → Left (suc made) n o
one_more made n m none less l = tt
one_more made n m (some g) less (e, l) = (e, omega arith)

steps-Left : (is : List Who) (f : Factory) → Exiting f → Left (length is) (total f) (steps is f)
unfolding steps
steps-Left [] f e = (e, omega arith)
steps-Left (w ∷ is) f e = go (step w f) (any_step w f e) (λ g eg. steps-Left is g eg)
  where
    go :
        (o : Option Factory)
        → After (total f) o
        → ((g : Factory) → Exiting g → Left (length is) (total g) (steps is g))
        → Left (suc (length is)) (total f) (elim o [ none ↦ none | some g ↦ steps is g ])
    go none a rest = tt
    go (some g) (eg, less) rest =
        one_more (length is) (total f) (total g) (steps is g) less (rest g eg)

progress :
    (f : Factory) → Exiting f → (f.joins ≡ 0) ⊎ ((w : Who) × (g : Factory) × (step w f ≡ some g))
progress f e =
    let g = leaving f.task_q f.threads f.in_pipe f.joins f.signalled in
    let flag_down : f ≡ g = λ i. record f { work_flag = e.flag i } in
    rw flag_down (can_step f.task_q f.threads f.in_pipe f.joins f.signalled (rw flag_down at e))

all_ended : (g : Factory) → Exiting g → g.joins ≡ 0 → sum_of ended g.threads ≡ length g.threads
all_ended g e done = let most = most_ended g.threads in omega (arith, e.counted)

begins :
    (f : Factory)
    → locked f.threads ≡ false
    → sum_of ended f.threads ≡ 0
    → f.in_pipe ≡ 0
    → Exiting (order_exit f)
unfolding order_exit
begins f free none_ended empty =
    let few = few_wait f.threads in
    record { flag = refl; free = free; counted = omega arith; enough = omega arith }

-- When the order to exit comes while no worker is between its test and its wait, none has ended and the
-- pipe is empty, whatever the others do and whatever is in the queue: a schedule makes at most as many
-- turns as the threads have left, and after each either every thread has ended and is joined, or some
-- thread can make a turn. So the exit ends under every schedule.
pub order_exit-joins :
    (f : Factory) (is : List Who) (g : Factory)
    → locked f.threads ≡ false
    → sum_of ended f.threads ≡ 0
    → f.in_pipe ≡ 0
    → steps is (order_exit f) ≡ some g
    → (length is ≤ total (order_exit f))
      × (((g.joins ≡ 0) × (sum_of ended g.threads ≡ length g.threads))
          ⊎ ((w : Who) × (g' : Factory) × (step w g ≡ some g')))
order_exit-joins f is g free none_ended empty run =
    let left = rw run at (steps-Left is (order_exit f) (begins f free none_ended empty)) in
    (
      omega (arith, left.1),
      elim (progress g left.0) [
        | inl done ↦ inl (done, all_ended g left.0 done)
        | inr more ↦ inr more
      ],
    )
