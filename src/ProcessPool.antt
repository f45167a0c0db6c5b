-- ===== src/ProcessPool.antt =====
-- wangdao/20180707/process_poll_server: a pool of child processes that send a file. parent_process.c and
-- child_process.c hand connections over through a pair of sockets for each child; the loop of server.c
-- gives a connection to a child and hears of its end. `fork` and `socketpair` succeed; what
-- `tran_file` sends is left out here, but not that it may end its process. A write to the socket of a child
-- that has ended kills the parent by SIGPIPE; what becomes of the children then is left out.
pub mod Everyone
pub mod Leave
pub mod Busy
mod Tests
use linux_os_coding.Base.{
  ℕ, zero, suc, ◌+◌, ◌≡◌, ◌≢◌, ◌⊎◌, Bool, true, false, List, [], ◌∷◌, ◌++◌, length, take, drop,
  ◌==◌, if◌then◌else◌,
}
use linux_os_coding.Base.Int.{ℤ, pos, negsuc, eqb_ℤ}
use linux_os_coding.Base.Text.{Text, codes}
use linux_os_coding.Base.Bytes.{int_bytes, int_value}

-- What one `sendmsg` puts into a socket: its bytes and the descriptor in its control message.
-- `recvmsg` stops where the next control message begins.
pub record Parcel : Type 0 where
  pub bytes : Text
  pub fd : ℤ

-- The two buffers of the sender are "pare", of strlen 4, and the four bytes of the flag.
unfoldable pub send_fd : (fd exit_flag : ℤ) → Parcel
send_fd fd exit_flag = record { bytes = codes "pare" ++ int_bytes exit_flag; fd = fd }

-- The first bytes of `memory` give way to those that arrive.
abbrev pub overwrite : (memory bytes : Text) → Text
overwrite memory bytes = bytes ++ drop (length bytes) memory

-- The two buffers of the receiver are "hello", of strlen 5, and the four bytes of its flag. The result
-- are the descriptor and the memory of the flag.
unfoldable pub recv_fd : Parcel → (exit_flag : Text) → ℤ × Text
recv_fd p exit_flag = (p.fd, overwrite exit_flag (take 4 (drop (length (codes "hello")) p.bytes)))

-- Where a child process stands: in `recvmsg`, in `tran_file` with a connection, behind the `exit(0)` for the
-- flag -1, or ended otherwise: by `check_error` for `recvmsg` or for `open`, or by a signal.
pub data Life : Type 0 where
  receiving : Life
  sending : ℤ → Life
  ended : Life
  failed : Life

abbrev pub is_dead : Life → Bool
is_dead receiving = false
is_dead (sending fd) = false
is_dead ended = true
is_dead failed = true

-- The parent in its loop, in its calls of `wait`, or killed.
pub data Parent : Type 0 where
  serving : Parent
  leaving : Parent
  killed : Parent

-- A child with its entry in the parent's table (`DataType`: `pid`, `fds`, `busy_flag`), the parcels and
-- the bytes on their way, and the memory of its `exit_flag`.
pub record Child : Type 0 where
  pub pid : ℕ
  pub fds : ℕ
  pub busy_flag : Bool
  pub inbox : List Parcel
  pub outbox : List ℕ
  pub exit_flag : Text
  pub life : Life

-- `fork` and `socketpair` give the numbers.
abbrev pub new_child : (ℕ × ℕ) → Child
new_child n = record {
  pid = n.0;
  fds = n.1;
  busy_flag = false;
  inbox = [];
  outbox = [];
  exit_flag = int_bytes (pos 0);
  life = receiving;
}

unfoldable pub make_child_process : List (ℕ × ℕ) → List Child
make_child_process [] = []
make_child_process (n ∷ numbers) = new_child n ∷ make_child_process numbers

-- `child_handle` from one `recv_fd` up to `exit` or to the start of `tran_file`.
unfoldable pub child_receive : Parcel → List Parcel → Child → Child
child_receive p more c =
    let (new_fd, exit_flag) = recv_fd p c.exit_flag in
    record c {
      inbox = more;
      exit_flag = exit_flag;
      life = (if eqb_ℤ (negsuc 0) (int_value exit_flag) then ended else sending new_fd);
    }

-- `child_handle` behind `tran_file`: the byte `notbusy_flag` for the parent.
unfoldable pub child_notify : Child → Child
child_notify c = record c { outbox = c.outbox ++ 1 ∷ []; life = receiving }

abbrev pub post : ℤ → ℤ → Child → Child
post fd exit_flag c = record c { inbox = c.inbox ++ send_fd fd exit_flag ∷ [] }

-- The end of a child but for the flag.
unfoldable pub child_fail : Child → Child
child_fail c = record c { life = failed }

-- A connection goes to the first child that is not busy; with none of them it is closed. If that child has
-- ended, `sendmsg` raises SIGPIPE.
unfoldable pub on_connect : ℤ → List Child → Parent × List Child
on_connect new_fd [] = (serving, [])
on_connect new_fd (c ∷ cs) =
    let rest = on_connect new_fd cs in
    if c.busy_flag
    then (rest.0, c ∷ rest.1)
    else if is_dead c.life
    then (killed, c ∷ cs)
    else (serving, record (post new_fd (pos 0) c) { busy_flag = true } ∷ cs)

-- The loop over the table behind an event on the descriptor `fd`.
unfoldable pub on_notice : (fd : ℕ) → List Child → List Child
on_notice fd [] = []
on_notice fd (c ∷ cs) =
    (if c.fds == fd then record c { outbox = drop 1 c.outbox; busy_flag = false } else c)
    ∷ on_notice fd cs

-- The order to exit: the flag -1 with the descriptor 0 for every child, up to one that has ended. Behind it the
-- parent waits for the end of each.
unfoldable pub on_exit : List Child → Parent × List Child
on_exit [] = (leaving, [])
on_exit (c ∷ cs) =
    let rest = on_exit cs in
    if is_dead c.life then (killed, c ∷ cs) else (rest.0, post (pos 0) (negsuc 0) c ∷ rest.1)

-- An event on `fd` comes where its child has written, or has ended: its end of the sockets is closed then.
abbrev pub Readable : ℕ → List Child → Type 0
Readable fd [] = Unit
Readable fd (c ∷ cs) = ((c.fds ≡ fd) → (c.outbox ≢ []) ⊎ (is_dead c.life ≡ true)) × Readable fd cs

-- A turn of one child.
pub data Turn : Child → Child → Type 0 where
  receive :
      (c : Child) (p : Parcel) (more : List Parcel)
      → c.life ≡ receiving
      → c.inbox ≡ p ∷ more
      → Turn c (child_receive p more c)
  notify : (c : Child) (fd : ℤ) → c.life ≡ sending fd → Turn c (child_notify c)
  fail : (c : Child) → is_dead c.life ≡ false → Turn c (child_fail c)

-- One of the children makes a turn.
pub data OneTurn : List Child → List Child → Type 0 where
  here : (c c' : Child) (cs : List Child) → Turn c c' → OneTurn (c ∷ cs) (c' ∷ cs)
  there : (c : Child) (cs cs' : List Child) → OneTurn cs cs' → OneTurn (c ∷ cs) (c ∷ cs')

-- The parent and the children, as long as the parent lives.
pub data Step : Parent → List Child → Parent → List Child → Type 0 where
  connect :
      (new_fd : ℤ) (cs : List Child)
      → Step serving cs (on_connect new_fd cs).0 (on_connect new_fd cs).1
  notice : (fd : ℕ) (cs : List Child) → Readable fd cs → Step serving cs serving (on_notice fd cs)
  exit_order : (cs : List Child) → Step serving cs (on_exit cs).0 (on_exit cs).1
  turn : (p : Parent) (cs cs' : List Child) → p ≢ killed → OneTurn cs cs' → Step p cs p cs'

-- What a server with these children reaches.
pub data Reach (numbers : List (ℕ × ℕ)) : Parent → List Child → Type 0 where
  start : Reach numbers serving (make_child_process numbers)
  next :
      (p p' : Parent) (cs cs' : List Child)
      → Reach numbers p cs
      → Step p cs p' cs'
      → Reach numbers p' cs'
