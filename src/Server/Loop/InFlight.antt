-- ===== src/Server/Loop/InFlight.antt =====
-- At most one task of a client is under way.
use linux_os_coding.Base.{
  ◌+◌, ◌≤◌, ◌≡◌, ◌≢◌, ap, sym, ◌∙◌, true, false, Option, none, some, List, [], ◌∷◌, ◌++◌,
  if◌then◌else◌, arith, Bool-cases, inl, inr, Post, Post-mono, Post-all, each, at_ok,
}
use native.Mathlib.Nat.{le_trans}
use linux_os_coding.Base.Int.{ℤ, pos, negsuc, eqb_ℤ, ne_of_eqb_ℤ, eqb_ℤ_iff}
use linux_os_coding.Base.Text.{Text, fill, codes}
use linux_os_coding.Queue.Store.{Task}
use linux_os_coding.Server.{Message}
use linux_os_coding.Server.Log.{Tm, log_entry}
use linux_os_coding.Server.Table.{ClientFd, free_slot, find, change, is_client_work}
use linux_os_coding.Server.Worker.{release}
use linux_os_coding.Server.Loop.{
  State, give_child_task, on_accept, on_readable, popped, claim, Step, accept, readable, take_io,
  take_shell, finish, Reach, here, next,
}
use linux_os_coding.Server.Loop.Pending.{
  count, pending, flag, count-append, count-popped, flag-change_ne, flag-le, flag-none, flag-find,
  flag-mark, flag-claim, is_client_work-find,
}

-- A client with a task under way is marked, and has no second one.
abbrev pub Inv : State → Type 0
Inv s = (fd : ℤ) → fd ≢ negsuc 0 → pending s fd ≤ flag s.clients fd

abbrev made : ℤ → Message → Task
made fd m = record { fd = fd; work_id = m.order; option = m.buffer }

-- `give_child_task` adds one task, of its client, and leaves the table alone.
pub give-pending :
    (fd other : ℤ) (s : State) (m : Message)
    → Post
        (λ s'.
          (pending s' other ≤ pending s other + (if eqb_ℤ fd other then 1 else 0))
          × (s'.clients ≡ s.clients))
        (give_child_task fd s m)
unfolding give_child_task fill count
give-pending fd other s m =
    ground
      (arith, count-append other s.io (made fd m ∷ []), count-append other s.shell (made fd m ∷ []))

take_io-Inv :
    (s : State) (t : Task) (q : List Task)
    → s.io ≡ t ∷ q
    → Inv s
    → Inv (record s { io = q; busy = popped t s.busy })
unfolding count
take_io-Inv s t q e inv fd ne = ground (arith, inv fd ne, count-popped fd t s.busy)

take_shell-Inv :
    (s : State) (t : Task) (q : List Task)
    → s.shell ≡ t ∷ q
    → Inv s
    → Inv (record s { shell = q; busy = popped t s.busy })
unfolding count
take_shell-Inv s t q e inv fd ne = ground (arith, inv fd ne, count-popped fd t s.busy)

finish-Inv :
    (s : State) (before : List Task) (t : Task) (after : List Task)
    → s.busy ≡ before ++ t ∷ after
    → Inv s
    → Inv (record s { busy = before ++ after; clients = release s.clients t.fd })
unfolding count
finish-Inv s before t after e inv fd ne = elim (Bool-cases (eqb_ℤ t.fd fd)) [
  | inl same ↦ ground (arith, inv fd ne, same, split, joined, flag-le s.clients fd)
  | inr other ↦ ground (arith, inv fd ne, other, split, joined, kept other)
]
  where
    split : count fd s.busy ≡ count fd before + count fd (t ∷ after)
    split = ap (count fd) e ∙ count-append fd before (t ∷ after)

    joined : count fd (before ++ after) ≡ count fd before + count fd after
    joined = count-append fd before after

    kept : eqb_ℤ t.fd fd ≡ false → flag (release s.clients t.fd) fd ≡ flag s.clients fd
    kept other =
        flag-change_ne s.clients t.fd fd (λ c. record c { work_flag = false })
          (λ c at p. ne_of_eqb_ℤ t.fd fd other (sym at ∙ p)) (ne_of_eqb_ℤ t.fd fd other)

abbrev Bounded : ℤ → State → Type 0
Bounded x s = x ≢ negsuc 0 → pending s x ≤ flag s.clients x

-- Where there is room for one more task of `fd`, `give_child_task` keeps the invariant.
give-Inv :
    (fd : ℤ) (s : State) (m : Message)
    → ((x : ℤ) → x ≢ negsuc 0 → pending s x + (if eqb_ℤ fd x then 1 else 0) ≤ flag s.clients x)
    → Post Inv (give_child_task fd s m)
give-Inv fd s m room = Post-all Bounded (give_child_task fd s m) λ x.
    Post-mono
      (λ s'.
        (pending s' x ≤ pending s x + (if eqb_ℤ fd x then 1 else 0)) × (s'.clients ≡ s.clients))
      (Bounded x) (give_child_task fd s m) (give-pending fd x s m)
      λ s' (le, same) ne. rw same (le_trans le (room x ne))

accept-Inv :
    (now : Tm) (ip : Text) (fd : ℤ) (message : Option Message) (s : State) (c : ClientFd)
    → fd ≢ negsuc 0
    → (find s.clients fd).1 ≡ none
    → (find s.clients (negsuc 0)).1 ≡ some c
    → Inv s
    → Post Inv (on_accept now ip fd message s)
unfolding on_accept
accept-Inv now ip fd none s c ne fresh free inv =
    each Inv (log_entry now (codes "ip:" ++ ip ++ codes " connect") s.log) _ λ log. inv
accept-Inv now ip fd (some m) s c ne fresh free inv =
    each Inv (log_entry now (codes "ip:" ++ ip ++ codes " connect") s.log) _
      λ log. give-Inv fd (record s { clients = claim s.clients fd; log = log }) m room
  where
    room :
        (x : ℤ)
        → x ≢ negsuc 0
        → pending s x + (if eqb_ℤ fd x then 1 else 0) ≤ flag (claim s.clients fd) x
    room x xne = elim (Bool-cases (eqb_ℤ fd x)) [
      | inl same ↦
          rw (same, ← (eqb_ℤ_iff fd x).0 same)
            (omega (
              arith,
              inv fd ne,
              flag-none s.clients fd fresh,
              flag-claim s.clients fd c fresh free,
            ))
      | inr other ↦
          rw
            (
              other,
              flag-change_ne s.clients (negsuc 0) x (λ d. record d { fd = fd; work_flag = true })
                  (λ d at. ne_of_eqb_ℤ fd x other) (λ p. xne (sym p)),
            )
            (omega (arith, inv x xne))
    ]

-- A client that is not at work has no task under way.
idle-pending :
    (s : State) (fd : ℤ) (c : ClientFd)
    → fd ≢ negsuc 0
    → (find s.clients fd).1 ≡ some c
    → Inv s
    → eqb_ℤ (is_client_work s.clients fd) (pos 1) ≡ false
    → pending s fd ≤ 0
idle-pending s fd c ne known inv idle =
    let off : c.work_flag ≡ false = sym (is_client_work-find s.clients fd c known) ∙ idle in
    let zero_flag : flag s.clients fd ≡ 0 =
      flag-find s.clients fd c known ∙ ap (λ b. if b then 1 else 0) off in
    omega (arith, inv fd ne, zero_flag)

readable-Inv :
    (now : Tm) (fd : ℤ) (message : Option Message) (s : State) (c : ClientFd)
    → fd ≢ negsuc 0
    → (find s.clients fd).1 ≡ some c
    → Inv s
    → Post Inv (on_readable now fd message s)
unfolding on_readable
readable-Inv now fd none s c ne known inv =
    elim (Bool-cases (eqb_ℤ (is_client_work s.clients fd) (pos 1))) [
      | inl at_work ↦ rw at_work inv
      | inr idle ↦
          rw (idle, known)
            (each Inv (log_entry now (codes "user:" ++ c.name ++ codes " disconnect") s.log) _
              λ log x xne. left x xne (idle-pending s fd c ne known inv idle))
    ]
  where
    left :
        (x : ℤ)
        → x ≢ negsuc 0
        → pending s fd ≤ 0
        → pending s x ≤ flag (change s.clients fd (λ _. free_slot)) x
    left x xne zero_left = elim (Bool-cases (eqb_ℤ fd x)) [
      | inl same ↦ rw (← (eqb_ℤ_iff fd x).0 same) (omega (arith, zero_left))
      | inr other ↦
          rw
            (flag-change_ne s.clients fd x (λ _. free_slot) (λ d at p. xne (sym p))
              (ne_of_eqb_ℤ fd x other))
            (inv x xne)
    ]
readable-Inv now fd (some m) s c ne known inv =
    elim (Bool-cases (eqb_ℤ (is_client_work s.clients fd) (pos 1))) [
      | inl at_work ↦ rw at_work inv
      | inr idle ↦ rw idle (
          give-Inv fd
            (record s { clients = change s.clients fd (λ d. record d { work_flag = true }) }) m
            λ x xne. room x xne (idle-pending s fd c ne known inv idle))
    ]
  where
    room :
        (x : ℤ)
        → x ≢ negsuc 0
        → pending s fd ≤ 0
        → pending s x + (if eqb_ℤ fd x then 1 else 0)
          ≤ flag (change s.clients fd (λ d. record d { work_flag = true })) x
    room x xne zero_left = elim (Bool-cases (eqb_ℤ fd x)) [
      | inl same ↦
          rw (same, ← (eqb_ℤ_iff fd x).0 same)
            (omega (arith, zero_left, flag-mark s.clients fd c known))
      | inr other ↦
          rw
            (
              other,
              flag-change_ne s.clients fd x (λ d. record d { work_flag = true })
                  (λ d at p. ne_of_eqb_ℤ fd x other (sym at ∙ p)) (ne_of_eqb_ℤ fd x other),
            )
            (omega (arith, inv x xne))
    ]

Step-Inv : {s t : State} → Step s t → Inv s → Inv t
Step-Inv {s} {t} (accept now ip fd message ne fresh c free run) inv =
    at_ok Inv (on_accept now ip fd message s) t (accept-Inv now ip fd message s c ne fresh free inv)
      run
Step-Inv {s} {t} (readable now fd message ne c known run) inv =
    at_ok Inv (on_readable now fd message s) t (readable-Inv now fd message s c ne known inv) run
Step-Inv {s} (take_io t q e) inv = take_io-Inv s t q e inv
Step-Inv {s} (take_shell t q e) inv = take_shell-Inv s t q e inv
Step-Inv {s} (finish before t after e) inv = finish-Inv s before t after e inv

-- However connections, commands and workers interleave, from a state in which no task is under way:
-- a client never has two tasks queued or at work together, and one that has is marked in the table.
pub one_task_in_flight :
    (s t : State)
    → ((fd : ℤ) → pending s fd ≡ 0)
    → Reach s t
    → (fd : ℤ) → fd ≢ negsuc 0
    → (pending t fd ≤ 1) × (pending t fd ≤ flag t.clients fd)
one_task_in_flight s t quiet r fd ne =
    (omega (arith, reached r fd ne, flag-le t.clients fd), reached r fd ne)
  where
    reached : {u : State} → Reach s u → Inv u
    reached here = λ x xne. omega (arith, quiet x)
    reached (next r' st) = Step-Inv st (reached r')
