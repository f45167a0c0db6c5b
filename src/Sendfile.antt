-- ===== src/Sendfile.antt =====
-- The transfer by `sendfile`: `tran_file` of thread_poll_task/SERVER_SENDFILE_QUIT_WAIT/src/tran_file.c, and
-- the client of thread_poll_task/client_sendfiile/src (client.c, r_s_api.c). `send_n`, and the loop of the
-- client's `recv_n`, have the text of Socket's. The loop of `recv_file` runs on fuel, one call of `recv` a
-- round.
pub mod Short
pub mod Received
pub mod Whole
mod Tests
use Prim.Native.Nat.{min}
use linux_os_coding.Base.{
  ℕ, zero, suc, ◌+◌, ◌≡◌, Bool, true, false, ltb, ◌==◌, if◌then◌else◌, Option, none, some, List, [],
  ◌∷◌, ◌++◌, length, take, drop, replicate, ◌^◌,
}
use linux_os_coding.Base.Int.{ℤ, pos, negsuc, pos_part, eqb_ℤ, leb_ℤ}
use linux_os_coding.Base.Text.{Text, fill, c_string}
use linux_os_coding.Base.Bytes.{int_bytes, int_value, le_bytes, le_value}
use linux_os_coding.Socket
use linux_os_coding.Socket.{Answer, Arrival, chunk, keep, send_n}
use linux_os_coding.Train.{Wait, done, blocked, broken, ◌>>=◌, of_run, train_size}

-- The one call of `sendfile` for the whole file: `moved` is how much the kernel moves at most, `none` an
-- error. What `tran_file` returns, and the bytes on the wire before `close`.
unfoldable pub send_content : (content : Text) → (st_size : ℕ) → (moved : Option ℕ) → ℤ × Text
send_content content st_size none = (negsuc 0, [])
send_content content st_size (some most) = (pos 0, take (min most st_size) content)

-- What is returned, the bytes written to the file, and what is left of the stream. `total_download` is a
-- `double`, which holds every size below 2^53.
unfoldable pub recv_file :
    (fuel : ℕ)
    → List Arrival
    → (buflen size_file total_download : ℕ) → Option (ℤ × Text × List Arrival)
recv_file zero arrivals buflen size_file total = none
recv_file (suc fuel) [] buflen size_file total =
    if ltb total size_file then none else some (pos 1, [], [])
recv_file (suc fuel) (Arrival.failed ∷ more) buflen size_file total =
    if ltb total size_file
    then some (negsuc 0, [], more)
    else some (pos 1, [], Arrival.failed ∷ more)
recv_file (suc fuel) (Arrival.again ∷ more) buflen size_file total =
    let rest = recv_file fuel more buflen size_file total in
    if ltb total size_file then rest else some (pos 1, [], Arrival.again ∷ more)
recv_file (suc fuel) (chunk bytes ∷ more) buflen size_file total =
    let ret_num = min (length bytes) buflen in
    let rest = recv_file fuel (keep ret_num bytes more) buflen size_file (total + ret_num) in
    if ltb total size_file
    then if ret_num == 0 then some (pos 0, [], more) else elim rest [
      | none ↦ none
      | some (r, written, left) ↦ some (r, take ret_num bytes ++ written, left)
    ]
    else some (pos 1, [], chunk bytes ∷ more)

-- A list of answers that has come to its end leaves a call waiting.
abbrev pub of_option : {A : Type 0} → Option A → Wait A
of_option none = blocked
of_option (some a) = done a

-- `len` and so many bytes of the buffer.
abbrev pub message : Text → Text
message buf = int_bytes (pos (length buf)) ++ buf

-- What is returned, `none` where `check_error` ends the process, and the bytes on the wire. `st_size` is what
-- `stat` leaves, `opens` whether `open` succeeds, `moved` is for `sendfile` as above.
unfoldable pub tran_file :
    (filename : Text)
    → (st_size : ℕ) → (opens : Bool) → (content : Text) → (moved : Option ℕ) → List Answer
    → Wait (Option ℤ × Text)
tran_file filename st_size opens content moved answers = do
  buf ← of_run (fill train_size filename)
  (ret_num, wire, answers1) ← of_option (send_n answers (message buf))
  if leb_ℤ ret_num (pos 0) then done (some (negsuc 0), wire) else do
    (ret_num2, wire2, answers2) ← of_option (send_n answers1 (message (le_bytes 8 st_size)))
    let (r, sent) = send_content content st_size moved
    if leb_ℤ ret_num2 (pos 0)
        then done (some (negsuc 0), wire ++ wire2)
        else if opens
        then done (some r, wire ++ wire2 ++ sent)
        else done (none, wire ++ wire2)

-- The client's `recv_n` into memory of `cap` bytes: it returns 0 for a whole message too. A negative
-- `buflen` asks for nothing.
unfoldable pub recv_n :
    (cap : ℕ) → List Arrival → (buflen : ℤ) → (memory : Text) → Wait (ℤ × Text × List Arrival)
recv_n cap arrivals buflen memory = do
  (r, got, rest) ← of_option (Socket.recv_n arrivals (pos_part buflen))
  if ltb cap (length got)
      then broken
      else done ((if eqb_ℤ r (pos 1) then pos 0 else r), got ++ drop (length got) memory, rest)

-- An `off_t` as the bound of the loop: below 0 it is as 0.
abbrev pub off_value : Text → ℕ
off_value bytes = if ltb (le_value bytes) (2 ^ 63) then le_value bytes else 0

-- The client: the name and the content of the file that it leaves, `none` where `open` fails. `junk` is
-- what the memory of `len` holds before anything is written to it. What the file held behind the last
-- byte written, it keeps.
unfoldable pub client :
    (fuel : ℕ)
    → (opens : Text → Bool) → (old : Text → Text) → (junk : Text) → List Arrival
    → Wait (Option (Text × Text))
client fuel opens old junk arrivals = do
  (ret_num, len, arrivals1) ← recv_n 4 arrivals (pos 4) junk
  (ret_num2, buf, arrivals2) ← recv_n 1000 arrivals1 (int_value len) (replicate 1000 0)
  name ← of_run (c_string buf)
  if opens name
      then (do
        (ret_num3, len', arrivals3) ← recv_n 4 arrivals2 (pos 4) len
        (ret_num4, f_size, arrivals4) ← recv_n 8 arrivals3 (int_value len') (replicate 8 0)
        (r, written, rest) ← of_option (recv_file fuel arrivals4 1000 (off_value f_size) 0)
        done (some (name, written ++ drop (length written) (old name))))
      else done none
