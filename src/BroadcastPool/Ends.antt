-- ===== src/BroadcastPool/Ends.antt =====
-- The exit behind the broadcast.
use linux_os_coding.Base.{
  ℕ, suc, ◌+◌, ◌≤◌, ◌≡◌, refl, false, Run, ok, fault, Option, none, some, List, [], ◌∷◌, length,
  arith, ◌⊎◌,
}
use linux_os_coding.Memory.{free}
use linux_os_coding.BroadcastPool.{
  Thread, Shared, Pool, ordered, joining, returned, locked, broadcast, Who, main_thread, main_turn,
  step, steps,
}
use linux_os_coding.BroadcastPool.Counts.{sum_of, ended, weight, woken_lem}
use linux_os_coding.BroadcastPool.Exiting.{total, Exiting, After, any_step, can_go}

-- What a schedule leaves.
abbrev Left : (made n : ℕ) → Option (Run Pool) → Type 0
Left made n none = Unit
Left made n (some fault) = Unit
Left made n (some (ok g)) = Exiting g × (made + total g ≤ n)

one_more : (made n m : ℕ) (o : Option (Run Pool)) → suc m ≤ n → Left made m o → Left (suc made) n o
one_more made n m none less l = tt
one_more made n m (some fault) less l = tt
one_more made n m (some (ok g)) less (e, l) = (e, omega arith)

steps-Left : (is : List Who) (p : Pool) → Exiting p → Left (length is) (total p) (steps is p)
unfolding steps
steps-Left [] p e = (e, omega arith)
steps-Left (w ∷ is) p e = go (step w p) (any_step w p e) (λ g eg. steps-Left is g eg)
  where
    go :
        (o : Option (Run Pool))
        → After (total p) o
        → ((g : Pool) → Exiting g → Left (length is) (total g) (steps is g))
        → Left
            (suc (length is))
            (total p)
            (elim o [ none ↦ none | some fault ↦ some fault | some (ok g) ↦ steps is g ])
    go none a rest = tt
    go (some fault) a rest = tt
    go (some (ok g)) (eg, less) rest =
        one_more (length is) (total p) (total g) (steps is g) less (rest g eg)

-- When the broadcast of the exit comes while no worker is between its test and its wait, and each that has
-- ended has written to the pipe: a schedule in which no worker meets a task that is freed makes at most
-- as many turns as the threads have left, and after each either the main thread has returned and every
-- worker has ended, or some thread can make a turn.
pub broadcast-ends :
    (ws : List Thread) (s : Shared) (is : List Who) (g : Pool)
    → locked ws ≡ false
    → sum_of ended ws ≡ s.in_pipe
    → steps
        (main_thread ∷ is)
        (record { shared = s; threads = ws; work_flag = false; main = ordered })
      ≡ some (ok g)
    → (length is ≤ sum_of weight ws + suc (length ws))
      × (((g.main ≡ returned) × (sum_of ended g.threads ≡ length g.threads))
          ⊎ ((w : Who) × (r : Run Pool) × (step w g ≡ some r)))
unfolding steps step main_turn
broadcast-ends ws s is g free written run =
    let (a, e, w, n) = woken_lem ws free in
    let p : Pool = record {
      shared = s;
      threads = broadcast ws;
      work_flag = false;
      main = joining (length ws);
    } in
    let begins : Exiting p = record { flag = refl; awake = a; counted = omega arith } in
    let left = rw run at (steps-Left is p begins) in (omega (arith, left.1), can_go g left.0)
