-- ===== src/Exchange.antt =====
-- Both ends of a transfer of the net disk together: `send_file` of one side and `recv_file` of the other
-- (NET_DISK_TASK/SERVER/src/server.c and NET_DISK_TASK/CLIENT/src/client.c), where each receives what the
-- other has sent. This module has what the two directions share.
pub mod Gets
pub mod Puts
mod Tests
use Prim.Native.Nat.{min}
use linux_os_coding.Base.{
  ℕ, zero, suc, ◌+◌, is_empty, ◌-◌, ◌≡◌, ◌≤◌, ◌<◌, ◌⊎◌, inl, inr, refl, sym, ap, ◌∙◌, Bool, true,
  false, Bool-cases, Option, none, some, List, [], ◌∷◌, ◌++◌, length, length-take, length-drop,
  take, drop, take-all, arith, if◌then◌else◌,
}
use linux_os_coding.Base.Int.{ℤ, pos, negsuc, ltb_ℤ}
use linux_os_coding.Socket.{Arrival, chunk}
use linux_os_coding.Server.{Message}
use linux_os_coding.Base.Text.{Text, str_eq, str_eq_iff}
use linux_os_coding.Wire.{
  Link, Files, Packet, whole, raw, later, put_file, append_file, sendfile, recv_message,
}
use linux_os_coding.Server.Transfer.{open_target, recv_loop, after_recv}
use linux_os_coding.Server.Transfer.Resume.{Brings, recv_loop-resumes}

-- Before a transfer of `file` the receiver's file at `path` can be written and holds the first `k` bytes,
-- or there is none.
abbrev pub Target : Files → (path : Text) → (k : ℕ) → (file : Text) → Type 0
Target fs path k file =
    (fs.writable path ≡ true)
    × ((fs.content path ≡ some (take k file)) ⊎ ((fs.content path ≡ none) × (k ≡ 0)))

-- Behind it the file is there, and every other file is as it was.
abbrev pub Received : (before after : Files) → (path file : Text) → Type 0
Received fs fs' path file =
    (fs'.content path ≡ some file)
    × ((p : Text) → fs'.content p ≡ (if str_eq p path then some file else fs.content p))

-- The receiver has opened its file.
abbrev Opened : Files → (path : Text) → (k : ℕ) → (file : Text) → Type 0
Opened fs path k file =
    (fs1 : Files) × (open_target fs path ≡ some (k, true, fs1))
    × (fs1.content path ≡ some (take k file))
    × ((p : Text) → str_eq p path ≡ false → fs1.content p ≡ fs.content p)

pub open_lem :
    (fs : Files) (path : Text) (k : ℕ) (file : Text)
    → k ≤ length file
    → Target fs path k file
    → Opened fs path k file
unfolding open_target put_file
open_lem fs path k file le (w, inl e) =
    let size : length (take k file) ≡ k = omega (arith, length-take k file) in
    (fs, rw (e, open_target, w, size) refl, e, λ p ne. refl)
open_lem fs path k file le (w, inr (e, z)) = (
  put_file fs path [],
  rw (e, open_target, w, z) refl,
  rw (z, (str_eq_iff path path).1 refl) refl,
  λ p ne. rw ne refl,
)

-- The loop of the receiver.
pub loop-Received :
    (n k : ℕ) (path file : Text) (fs fs1 : Files) (l : Link)
    → fs1.content path ≡ some (take k file)
    → ((p : Text) → str_eq p path ≡ false → fs1.content p ≡ fs.content p)
    → k ≤ length file
    → Brings n l.chunks (drop k file)
    → (fs' : Files) × (l' : Link) × (recv_loop (suc n) true path k (pos (length file)) fs1 l
        ≡ some (pos 1, fs', l'))
      × Received fs fs' path file
loop-Received n k path file fs fs1 l e others le b =
    let (fs', l', run, full, all) = recv_loop-resumes n k path fs1 l file e le b in
    (
      fs',
      l',
      run,
      (
        full,
        λ p. elim (Bool-cases (str_eq p path)) [
          | inl same ↦ rw same (ap fs'.content ((str_eq_iff p path).0 same) ∙ full)
          | inr other ↦ all p ∙ rw other (others p other)
        ],
      ),
    )

-- `sendfile` from `k` on moves the rest, where the kernel moves all that it is asked for.
pub sendfile-rest :
    (k most : ℕ) (file : Text) (l : Link)
    → l.sendfile_results 0 ≡ some most
    → length file ≤ most
    → sendfile file (pos k) (length file) l ≡ (
      pos (length file - k),
      record l {
        sent = l.sent ++ raw (drop k file) ∷ [];
        sendfile_results = later l.sendfile_results;
      },
    )
unfolding sendfile
sendfile-rest k most file l e enough =
    let n : min most (min (length file) (length file - k)) ≡ length file - k = omega arith in
    let all : take (length file - k) (drop k file) ≡ drop k file =
      take-all (length file - k) (drop k file) (omega (arith, length-drop k file)) in
    rw (e, sendfile, n, all) refl

-- The bytes and messages of `packets` are what an end receives: its messages in turn, then, within `n` calls,
-- the bytes.
abbrev pub Hears :
    (packets : List Packet)
    → (replies : ℕ → ℤ × Message) → (n : ℕ) → (chunks : ℕ → Arrival) → Type 0
Hears [] replies n chunks = Unit
Hears (whole m ∷ packets) replies n chunks =
    (replies 0 ≡ (pos 1, m)) × Hears packets (later replies) n chunks
Hears (raw bytes ∷ packets) replies n chunks = Brings n chunks bytes × (packets ≡ [])

-- A receiver's loop sends nothing.
abbrev Silent : Link → Option (ℤ × Files × Link) → Type 0
Silent l none = Unit
Silent l (some (r, fs, l')) = l'.sent ≡ l.sent

by_test :
    (l : Link) (b : Bool) (x y : Option (ℤ × Files × Link))
    → Silent l x
    → Silent l y
    → Silent l (elim b [ false ↦ x | true ↦ y ])
by_test l false x y hx hy = hx
by_test l true x y hx hy = hy

by_arrival :
    (l : Link) (a : Arrival) (x y : Option (ℤ × Files × Link))
    (z : Text → Option (ℤ × Files × Link))
    → Silent l x
    → Silent l y
    → ((bytes : Text) → Silent l (z bytes))
    → Silent l (elim a [ Arrival.failed ↦ x | Arrival.again ↦ y | chunk bytes ↦ z bytes ])
by_arrival l Arrival.failed x y z hx hy hz = hx
by_arrival l Arrival.again x y z hx hy hz = hy
by_arrival l (chunk bytes) x y z hx hy hz = hz bytes

loop-Silent :
    (n : ℕ) (opened : Bool) (path : Text) (total : ℕ) (file_size : ℤ) (fs : Files) (l : Link)
    → Silent l (recv_loop n opened path total file_size fs l)
unfolding recv_loop
loop-Silent zero opened path total file_size fs l = tt
loop-Silent (suc n) opened path total file_size fs l =
    by_test l (ltb_ℤ (pos total) file_size) _ _ refl (
      by_arrival l (l.chunks 0) _ _ _ refl
        (loop-Silent n opened path total file_size fs (after_recv l))
        (λ bytes.
          by_test l (is_empty bytes) _ _
            (loop-Silent n opened path (total + length (take 1000 bytes)) file_size
              (append_file opened fs path (take 1000 bytes)) (after_recv l))
            refl))

pub loop-sent :
    (n : ℕ) (opened : Bool) (path : Text) (total : ℕ) (file_size r : ℤ) (fs fs' : Files)
    (l l' : Link)
    → recv_loop n opened path total file_size fs l ≡ some (r, fs', l')
    → l'.sent ≡ l.sent
loop-sent n opened path total file_size r fs fs' l l' e =
    rw e at (loop-Silent n opened path total file_size fs l)

-- A message that arrives whole.
pub heard :
    (m m' : Message) (l : Link)
    → l.replies 0 ≡ (pos 1, m')
    → recv_message m l ≡ (pos 1, m', record l { replies = later l.replies })
unfolding recv_message
heard m m' l e = rw (e, recv_message) refl
