-- ===== src/Client/Transfer.antt =====
-- `send_file`, `recv_file` and `get_md5` of NET_DISK_TASK/CLIENT/src/client.c.
pub mod Digest
use linux_os_coding.Base.{
  ℕ, zero, suc, ◌+◌, ◌/◌, ◌%◌, Bool, true, false, Run, ok, fault, ◌>>=◌, Option, none, some, List,
  [], ◌∷◌, ◌++◌, length, ltb, if◌then◌else◌, ◌-◌,
}
use linux_os_coding.Base.Int.{ℤ, pos, negsuc, leb_ℤ}
use linux_os_coding.Base.Text.{Text, fill}
use linux_os_coding.Server.{Message}
use linux_os_coding.Server.Transfer.{check_io, recv_loop, open_target}
use linux_os_coding.Wire.{Link, Files, send_message, sendfile}

-- `message` brings how much of the file the server has. A file that has gone since `do_user_task`
-- opened it counts as one that `open` refuses, though the code sends the size it did not get first.
unfoldable pub send_file : Files → Text → Message → Link → ℤ × Message × Link
send_file fs filepath message l = elim (fs.content filepath) [
  | none ↦ (negsuc 0, message, l)
  | some bytes ↦
      let m = record message { file_size = pos (length bytes) } in
      let (r, l') = send_message m l in
      let (r', l'') = sendfile bytes message.file_size (length bytes) l' in
      check_io r (pos 0, m, l') (negsuc 0, m, l')
        (if leb_ℤ (pos (length bytes)) message.file_size
          then (negsuc 0, m, l')
          else check_io r' (pos 0, m, l'') (negsuc 0, m, l'') (pos 1, m, l''))
]

-- `message` brings the size of the file; the loop is that of the server's `recv_file`.
unfoldable pub recv_file :
    (fuel : ℕ) → Files → Text → Message → Link → Option (ℤ × Files × Message × Link)
recv_file fuel fs path message l = elim (open_target fs path) [
  | none ↦ some (negsuc 0, fs, message, l)
  | some (size, opened, fs') ↦
      let m = record message { file_size = pos size } in
      let (r, l') = send_message m l in
      let loop = recv_loop fuel opened path size message.file_size fs' l' in
      check_io r (some (pos 0, fs', m, l')) (some (negsuc 0, fs', m, l')) (
        if leb_ℤ message.file_size (pos size)
        then some (negsuc 0, fs', m, l')
        else elim loop [ none ↦ none | some (r', fs'', l'') ↦ some (r', fs'', m, l'') ])
]

abbrev pub read_max_size : ℕ
read_max_size = 1024

-- The loop that feeds the digest: what `read` returns, call by call (`none` for an error), and what
-- has been fed to `MD5_Update`. `none` where `read` fails, or where a list that has come to its end
-- would be read on.
unfoldable pub hash_loop : (reads : List (Option Text)) → (fed : Text) → Option Text
hash_loop [] fed = none
hash_loop (none ∷ reads) fed = none
hash_loop (some bytes ∷ reads) fed = elim (ltb (length bytes) read_max_size) [
  | true ↦ some (fed ++ bytes)
  | false ↦ hash_loop reads (fed ++ bytes)
]

-- `%02x`.
abbrev pub hex_digit : ℕ → ℕ
hex_digit n = if ltb n 10 then b'0' + n else b'a' + (n - 10)

unfoldable pub hex : Text → Text
hex [] = []
hex (byte ∷ bytes) = hex_digit (byte / 16) ∷ hex_digit (byte % 16) ∷ hex bytes

-- `md5` is the digest that openssl computes of all that is fed to it, 16 bytes. `room` is the size of
-- the array behind `md5_str`. The result is 0 or -1, with the string.
unfoldable pub get_md5 :
    (md5 : Text → Text) → (room : ℕ) → (readable : Bool) → List (Option Text) → Run (ℤ × Text)
get_md5 md5 room false reads = ok (negsuc 0, [])
get_md5 md5 room true reads = elim (hash_loop reads []) [
  | none ↦ ok (negsuc 0, [])
  | some fed ↦ fill room (hex (md5 fed)) >>= λ s. ok (pos 0, s)
]
