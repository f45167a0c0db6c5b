-- ===== src/Server/Loop/Wedge.antt =====
-- A client that is marked at work while no task of its is under way.
use linux_os_coding.Base.{
  ◌+◌, ◌<◌, ◌≤◌, ◌≡◌, ◌≢◌, refl, ap, sym, ◌∙◌, true, false, Option, none, some, List, [], ◌∷◌, ◌++◌,
  length, if◌then◌else◌, arith, Bool-cases, inl, inr, ok, Post, Post-mono, ◌>>=◌, each, at_ok,
}
use linux_os_coding.Base.Int.{ℤ, pos, negsuc, eqb_ℤ, ne_of_eqb_ℤ, eqb_ℤ_iff}
use linux_os_coding.Base.Text.{Text, fill-ok, codes}
use linux_os_coding.Queue.Store.{Task}
use linux_os_coding.Server.{Message}
use linux_os_coding.Server.Log.{Tm, log_entry}
use linux_os_coding.Server.Table.{ClientFd, free_slot, find, change, is_client_work}
use linux_os_coding.Server.Worker.{release}
use linux_os_coding.Server.Loop.{
  State, give_child_task, on_accept, on_readable, popped, claim, Step, accept, readable, take_io,
  take_shell, finish, Reach, here, next,
}
use linux_os_coding.Server.Loop.Pending.{
  count, pending, flag, count-append, count-popped, flag-change_ne, flag-none, flag-find, flag-mark,
  is_client_work-find,
}
use linux_os_coding.Server.Loop.InFlight.{give-pending}

abbrev pub Wedged : ℤ → State → Type 0
Wedged fd s = (pending s fd ≡ 0) × (flag s.clients fd ≡ 1)

-- A task for another client changes nothing for this one.
give-Wedged :
    (fd other : ℤ) (s : State) (m : Message)
    → eqb_ℤ other fd ≡ false
    → Wedged fd s
    → Post (Wedged fd) (give_child_task other s m)
give-Wedged fd other s m ne w =
    Post-mono
      (λ s'.
        (pending s' fd ≤ pending s fd + (if eqb_ℤ other fd then 1 else 0))
        × (s'.clients ≡ s.clients))
      (Wedged fd) (give_child_task other s m) (give-pending other fd s m)
      λ s' (le, same). (ground (arith, le, ne, w.0), rw same w.1)

module _ (s : State) (fd : ℤ) (ne : fd ≢ negsuc 0) (w : Wedged fd s) where
  accept-Wedged :
      (now : Tm) (ip : Text) (new : ℤ) (message : Option Message) (c : ClientFd)
      → new ≢ negsuc 0
      → (find s.clients new).1 ≡ none
      → Post (Wedged fd) (on_accept now ip new message s)
  unfolding on_accept
  accept-Wedged now ip new none c new_ne fresh =
      each (Wedged fd) (log_entry now (codes "ip:" ++ ip ++ codes " connect") s.log) _ λ log. w
  accept-Wedged now ip new (some m) c new_ne fresh =
      each (Wedged fd) (log_entry now (codes "ip:" ++ ip ++ codes " connect") s.log) _ λ log.
        give-Wedged fd new (record s { clients = claim s.clients new; log = log }) m other
          (
            w.0,
            flag-change_ne s.clients (negsuc 0) fd _ (λ d at. ne_of_eqb_ℤ new fd other)
                  (λ p. ne (sym p))
                ∙ w.1,
          )
    where
      other : eqb_ℤ new fd ≡ false
      other = elim (Bool-cases (eqb_ℤ new fd)) [
        | inl same ↦ absurd (
            omega (
              arith,
              w.1,
              ap (flag s.clients) ((eqb_ℤ_iff new fd).0 same),
              flag-none s.clients new fresh,
            ))
        | inr apart ↦ apart
      ]

  readable-Wedged :
      (now : Tm) (ready : ℤ) (message : Option Message) (c : ClientFd)
      → (find s.clients ready).1 ≡ some c
      → Post (Wedged fd) (on_readable now ready message s)
  unfolding on_readable
  readable-Wedged now ready message c known =
      elim (Bool-cases (eqb_ℤ (is_client_work s.clients ready) (pos 1))) [
        | inl at_work ↦ rw at_work w
        | inr idle ↦ rw idle (on_idle message (other idle))
      ]
    where
      other : eqb_ℤ (is_client_work s.clients ready) (pos 1) ≡ false → eqb_ℤ ready fd ≡ false
      other idle = elim (Bool-cases (eqb_ℤ ready fd)) [
        | inl same ↦ absurd (
            ground (
              arith,
              w.1,
              ap (flag s.clients) ((eqb_ℤ_iff ready fd).0 same),
              flag-find s.clients ready c known,
              is_client_work-find s.clients ready c known,
              idle,
            ))
        | inr apart ↦ apart
      ]

      on_idle :
          (message : Option Message)
          → eqb_ℤ ready fd ≡ false
          → Post (Wedged fd) (elim message [
            | none ↦ elim ((find s.clients ready).1) [
              | none ↦ ok s
              | some d ↦
                  log_entry now (codes "user:" ++ d.name ++ codes " disconnect") s.log >>= λ log.
                  ok (record s { clients = change s.clients ready (λ _. free_slot); log = log })
            ]
            | some m ↦
                give_child_task ready
                  (record s {
                    clients = change s.clients ready (λ d. record d { work_flag = true });
                  })
                  m
          ])
      on_idle none apart = rw known (
          each (Wedged fd) (log_entry now (codes "user:" ++ c.name ++ codes " disconnect") s.log) _
            λ log. (
              w.0,
              flag-change_ne s.clients ready fd (λ _. free_slot) (λ d at p. ne (sym p))
                    (ne_of_eqb_ℤ ready fd apart)
                  ∙ w.1,
            ))
      on_idle (some m) apart =
          give-Wedged fd ready
            (record s { clients = change s.clients ready (λ d. record d { work_flag = true }) }) m
            apart
            (
              w.0,
              flag-change_ne s.clients ready fd (λ d. record d { work_flag = true })
                    (λ d at p. ne_of_eqb_ℤ ready fd apart (sym at ∙ p)) (ne_of_eqb_ℤ ready fd apart)
                  ∙ w.1,
            )

  finish-Wedged :
      (before : List Task) (t : Task) (after : List Task)
      → s.busy ≡ before ++ t ∷ after
      → Wedged fd (record s { busy = before ++ after; clients = release s.clients t.fd })
  unfolding count
  finish-Wedged before t after e = elim (Bool-cases (eqb_ℤ t.fd fd)) [
    | inl same ↦ absurd (ground (arith, w.0, same, split))
    | inr apart ↦ (
      ground (arith, w.0, apart, split, count-append fd before after),
      flag-change_ne s.clients t.fd fd (λ d. record d { work_flag = false })
            (λ d at p. ne_of_eqb_ℤ t.fd fd apart (sym at ∙ p)) (ne_of_eqb_ℤ t.fd fd apart)
          ∙ w.1,
    )
  ]
    where
      split : count fd s.busy ≡ count fd before + count fd (t ∷ after)
      split = ap (count fd) e ∙ count-append fd before (t ∷ after)

take_io-Wedged :
    (s : State) (fd : ℤ) (t : Task) (q : List Task)
    → s.io ≡ t ∷ q
    → Wedged fd s
    → Wedged fd (record s { io = q; busy = popped t s.busy })
unfolding count
take_io-Wedged s fd t q e w = (ground (arith, w.0, ap (count fd) e, count-popped fd t s.busy), w.1)

take_shell-Wedged :
    (s : State) (fd : ℤ) (t : Task) (q : List Task)
    → s.shell ≡ t ∷ q
    → Wedged fd s
    → Wedged fd (record s { shell = q; busy = popped t s.busy })
unfolding count
take_shell-Wedged s fd t q e w =
    (ground (arith, w.0, ap (count fd) e, count-popped fd t s.busy), w.1)

Step-Wedged : {s t : State} (fd : ℤ) → fd ≢ negsuc 0 → Step s t → Wedged fd s → Wedged fd t
Step-Wedged {s} {t} fd ne (accept now ip new message new_ne fresh c free run) w =
    at_ok (Wedged fd) (on_accept now ip new message s) t
      (accept-Wedged s fd ne w now ip new message c new_ne fresh) run
Step-Wedged {s} {t} fd ne (readable now ready message ready_ne c known run) w =
    at_ok (Wedged fd) (on_readable now ready message s) t
      (readable-Wedged s fd ne w now ready message c known) run
Step-Wedged {s} fd ne (take_io t q e) w = take_io-Wedged s fd t q e w
Step-Wedged {s} fd ne (take_shell t q e) w = take_shell-Wedged s fd t q e w
Step-Wedged {s} fd ne (finish before t after e) w = finish-Wedged s fd ne w before t after e

-- A client that is marked at work while none of its tasks is under way stays so in every state
-- that the server can reach.
pub Reach-Wedged : {s t : State} (fd : ℤ) → fd ≢ negsuc 0 → Wedged fd s → Reach s t → Wedged fd t
Reach-Wedged fd ne w here = w
Reach-Wedged fd ne w (next r st) = Step-Wedged fd ne st (Reach-Wedged fd ne w r)

-- The state after the order -1 of the client `fd`, and after a shell worker has popped it.
abbrev pub marked : State → ℤ → State
marked s fd = record s { clients = change s.clients fd (λ d. record d { work_flag = true }) }

give-exit :
    (fd : ℤ) (s : State) (m : Message)
    → m.order ≡ negsuc 0
    → length m.buffer < 512
    → s.shell ≡ []
    → give_child_task fd s m
      ≡ ok (record s { shell = record { fd = fd; work_id = negsuc 0; option = m.buffer } ∷ [] })
unfolding give_child_task
give-exit fd s m e short idle = rw (fill-ok 512 m.buffer short, e, idle)

-- A client whose slot is idle sends the order -1 to a server whose shell queue is empty. From
-- there it can reach a state in which the client is marked at work and has no task: a worker has
-- taken the task for the exit marker.
pub exit_order_wedges :
    (s : State) (now : Tm) (fd : ℤ) (m : Message) (c : ClientFd)
    → fd ≢ negsuc 0
    → (find s.clients fd).1 ≡ some c
    → c.work_flag ≡ false
    → pending s fd ≡ 0
    → m.order ≡ negsuc 0
    → length m.buffer < 512
    → s.shell ≡ []
    → (t : State) × Reach s t × Wedged fd t
unfolding on_readable
exit_order_wedges s now fd m c ne known off quiet order short idle = (
  record s1 { shell = []; busy = popped task s1.busy },
  next (next here (readable now fd (some m) ne c known run)) (take_shell task [] refl),
  wedged,
)
  where
    task : Task
    task = record { fd = fd; work_id = negsuc 0; option = m.buffer }

    s1 : State
    s1 = record (marked s fd) { shell = task ∷ [] }

    run : on_readable now fd (some m) s ≡ ok s1
    run =
        rw (is_client_work-find s.clients fd c known, off)
          (give-exit fd (marked s fd) m order short idle)

    nothing :
        pending s fd ≡ 0
        → s.shell ≡ []
        → pending (record s1 { shell = []; busy = popped task s1.busy }) fd ≡ 0
    nothing q i = unfold popped count in ground (arith, q, i)

    wedged : Wedged fd (record s1 { shell = []; busy = popped task s1.busy })
    wedged = (nothing quiet idle, flag-mark s.clients fd c known)
