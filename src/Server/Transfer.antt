-- ===== src/Server/Transfer.antt =====
-- `send_file` and `recv_file` of NET_DISK_TASK/SERVER/src/server.c.
pub mod Resume
use linux_os_coding.Base.{
  ℕ, zero, suc, ◌+◌, Bool, true, false, Option, none, some, List, [], ◌∷◌, ◌++◌, length, take,
  is_empty, if◌then◌else◌,
}
use linux_os_coding.Base.Int.{ℤ, pos, negsuc, eqb_ℤ, ltb_ℤ, leb_ℤ}
use linux_os_coding.Base.Text.{Text}
use linux_os_coding.Server.{Message}
use linux_os_coding.Socket.{Arrival, chunk}
use linux_os_coding.Wire.{
  Link, Files, later, send_message, recv_message, put_file, append_file, sendfile,
}

-- `check_IO(ret)`: 0 and -1 are returned at once.
abbrev pub check_io : {A : Type 0} → ℤ → A → A → A → A
check_io r closed broken next =
    if eqb_ℤ r (pos 0) then closed else if eqb_ℤ r (negsuc 0) then broken else next

-- The offset behind a `sendfile` with the result `r`, which moves it on by the bytes sent.
abbrev pub advance : (offset r : ℤ) → ℤ
advance (pos k) (pos n) = pos (k + n)
advance (pos k) (negsuc n) = pos k
advance (negsuc k) r = negsuc k

-- `sendfile` reads its offset from `message` and writes it back there.
unfoldable pub send_file : Files → Text → Message → Link → ℤ × Message × Link
send_file fs filepath message l = elim (fs.content filepath) [
  | none ↦ (negsuc 0, message, l)
  | some bytes ↦
      let m = record message { file_size = pos (length bytes) } in
      let (r, l') = send_message m l in
      check_io r (pos 0, m, l') (negsuc 0, m, l')
        (let (r', m', l'') = recv_message m l' in
          check_io r' (pos 0, m', l'') (negsuc 0, m', l'')
            (if leb_ℤ (pos (length bytes)) m'.file_size
              then (negsuc 0, m', l'')
              else let (r'', l3) = sendfile bytes m'.file_size (length bytes) l'' in
                let moved = record m' { file_size = advance m'.file_size r'' } in
                check_io r'' (pos 0, moved, l3) (negsuc 0, moved, l3) (pos 1, moved, l3)))
]

-- One `recv` into the buffer of 1000 bytes.
abbrev pub after_recv : Link → Link
after_recv l = record l { chunks = later l.chunks }

-- The loop of `recv_file`: `total` bytes of `file_size` are in the file. `none`: the fuel ran out.
unfoldable pub recv_loop :
    ℕ
    → (opened : Bool) → Text
    → (total : ℕ) → (file_size : ℤ) → Files
    → Link
    → Option (ℤ × Files × Link)
recv_loop zero opened path total file_size fs l = none
recv_loop (suc k) opened path total file_size fs l = elim (ltb_ℤ (pos total) file_size) [
  | false ↦ some (pos 1, fs, l)
  | true ↦ elim (l.chunks 0) [
    | Arrival.failed ↦ some (negsuc 0, fs, after_recv l)
    | Arrival.again ↦ recv_loop k opened path total file_size fs (after_recv l)
    | chunk bytes ↦ elim (is_empty bytes) [
      | true ↦ some (pos 0, fs, after_recv l)
      | false ↦
          recv_loop k opened path (total + length (take 1000 bytes)) file_size
            (append_file opened fs path (take 1000 bytes)) (after_recv l)
    ]
  ]
]

-- `open` of the file to receive: the size of what is there already, whether there is a descriptor,
-- and the files. `none` if a file is there and cannot be opened.
unfoldable pub open_target : Files → Text → Option (ℕ × Bool × Files)
open_target fs path = elim (fs.content path) [
  | some old ↦ if fs.writable path then some (length old, true, fs) else none
  | none ↦ if fs.writable path then some (0, true, put_file fs path []) else some (0, false, fs)
]

-- `fuel` bounds the calls of `recv`.
unfoldable pub recv_file :
    (fuel : ℕ) → Files → Text → Message → Link → Option (ℤ × Files × Message × Link)
recv_file fuel fs path message l = elim (open_target fs path) [
  | none ↦ some (negsuc 0, fs, message, l)
  | some (size, opened, fs') ↦
      let m = record message { file_size = pos size } in
      let (r, l') = send_message m l in
      let (r', m', l'') = recv_message m l' in
      let loop = recv_loop fuel opened path size m'.file_size fs' l'' in
      check_io r (some (pos 0, fs', m, l')) (some (negsuc 0, fs', m, l')) (
        check_io r' (some (pos 0, fs', m', l'')) (some (negsuc 0, fs', m', l'')) (
          if leb_ℤ m'.file_size (pos size)
          then some (negsuc 0, fs', m', l'')
          else elim loop [ none ↦ none | some (r'', fs'', l3) ↦ some (r'', fs'', m', l3) ]))
]
