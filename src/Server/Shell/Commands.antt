-- ===== src/Server/Shell/Commands.antt =====
-- What the directory commands of server.c change and what they answer.
use linux_os_coding.Base.{
  ℕ, zero, suc, map, ap, Option-cases, ◌≤◌, ◌≡◌, refl, Run, ok, fault, ◌>>=◌, some, List, [], ◌∷◌,
  ◌++◌, length, length-append, arith, Post, get_elem?, set, inl, inr, Bool,
}
use linux_os_coding.Base.Int.{ℤ}
use linux_os_coding.Base.Text.{Text, fill, fill-fault}
use linux_os_coding.Queue.Store.{Task}
use linux_os_coding.Server.{Message, World}
use linux_os_coding.Server.Log.{Tm, log_entry, log_buffer_size}
use linux_os_coding.Server.Table.{ClientFd, update_slot}
use linux_os_coding.Server.Database.{Query}
use linux_os_coding.Server.Path.{locate}
use linux_os_coding.Server.Shell.{say, do_task_cd, do_task_ls, do_task_remove}

-- What a slot says of its client, less the path.
abbrev pub keys : ClientFd → ℤ × Bool × Text
keys c = (c.fd, c.work_flag, c.name)

map-set_same :
    {A B : Type 0} (f : A → B) (xs : List A) (k : ℕ) {a : A} (b : A)
    → get_elem? xs k ≡ some a
    → f b ≡ f a
    → map f (set xs k b) ≡ map f xs
map-set_same f [] k b e same = refl
map-set_same f (x ∷ xs) zero b e same = ground arith
map-set_same f (x ∷ xs) (suc k) b e same = ap (λ ys. f x ∷ ys) (map-set_same f xs k b e same)

pub update_slot-keys :
    (cs : List ClientFd) (k : ℕ) (stored : Text)
    → Post (λ cs'. map keys cs' ≡ map keys cs) (update_slot cs k (λ c. record c { path = stored }))
unfolding update_slot
update_slot-keys cs k stored = elim (Option-cases (get_elem? cs k)) [
  | inl none_there ↦ rw (none_there, update_slot) tt
  | inr (c, e) ↦ rw (e, update_slot) (map-set_same keys cs k (record c { path = stored }) e refl)
]

-- A text of 200 bytes or more does not fit the log buffer.
log_overflow :
    (now : Tm) (text : Text) (log : List Text)
    → log_buffer_size ≤ length text
    → log_entry now text log ≡ fault
unfolding log_entry
log_overflow now text log h = rw (fill-fault log_buffer_size text h)

log_option_overflow :
    (now : Tm) (a name b option : Text) (log : List Text)
    → log_buffer_size ≤ length option
    → log_entry now (a ++ name ++ b ++ option) log ≡ fault
log_option_overflow now a name b option log h =
    log_overflow now _ log (length_tail a name b option h)
  where
    length_tail :
        (p q r s : Text) → log_buffer_size ≤ length s → log_buffer_size ≤ length (p ++ q ++ r ++ s)
    length_tail p q r s k = omega (arith, length-append {0})

say-buffer : (m : Message) (t : Text) → Post (λ m'. m'.buffer ≡ t) (say m t)
unfolding say fill
say-buffer m t = ground arith

bind_fault :
    {A B : Type 0} (m : Run A) (f : A → Run B) → ((a : A) → f a ≡ fault) → (m >>= f) ≡ fault
bind_fault (ok a) f h = h a
bind_fault fault f h = refl

module _ {Db : Type 0} (query : Query Db) (now : Tm) where
  -- An option of 200 bytes or more overruns the log buffer in each of `do_task_cd`, `do_task_ls` and
  -- `do_task_remove`, whatever the client, the table and the database are.
  pub long_option_fault :
      (w : World Db) (task : Task) (m : Message)
      → log_buffer_size ≤ length task.option
      → (do_task_cd query now w task m ≡ fault)
        × (do_task_ls query now w task m ≡ fault)
        × (do_task_remove query now w task m ≡ fault)
  unfolding do_task_cd do_task_ls do_task_remove
  long_option_fault w task m long = (
    bind_fault (locate w.clients task.fd task.option) _
        (λ x. rw (log_option_overflow now _ _ _ task.option w.log long)),
    bind_fault (locate w.clients task.fd task.option) _
        (λ x. rw (log_option_overflow now _ _ _ task.option w.log long)),
    bind_fault (locate w.clients task.fd task.option) _
        (λ x. rw (log_option_overflow now _ _ _ task.option w.log long)),
  )

  abbrev pub Keeps : World Db → World Db × Message → Type 0
  Keeps w (w', m') = map keys w'.clients ≡ map keys w.clients

  cd-keys :
      (w : World Db) (task : Task) (m : Message) → Post (Keeps w) (do_task_cd query now w task m)
  unfolding do_task_cd
  cd-keys w task m = grind (arith, update_slot-keys)

  ls-keys :
      (w : World Db) (task : Task) (m : Message) → Post (Keeps w) (do_task_ls query now w task m)
  unfolding do_task_ls
  ls-keys w task m = ground arith

  remove-keys :
      (w : World Db) (task : Task) (m : Message)
      → Post (Keeps w) (do_task_remove query now w task m)
  unfolding do_task_remove
  remove-keys w task m = ground arith

  -- Where they end without undefined behaviour, `do_task_cd`, `do_task_ls` and `do_task_remove` leave
  -- every slot's descriptor, work flag and user name as they were.
  pub commands-keys :
      (w : World Db) (task : Task) (m : Message)
      → Post (Keeps w) (do_task_cd query now w task m)
        × Post (Keeps w) (do_task_ls query now w task m)
        × Post (Keeps w) (do_task_remove query now w task m)
  commands-keys w task m = (cd-keys w task m, ls-keys w task m, remove-keys w task m)
