-- ===== src/Train.antt =====
-- The file transfer of the thread pool: `tran_file` and `send_n` of
-- thread_poll_task/SERVER_QUIT_WAIT_TASK/src/tran_file.c, and the client of thread_poll_task/client/src
-- (client.c, r_s_api.c). Name, size and pieces of the file go as frames: four bytes of length, then so
-- many bytes. What the kernel does with each call is a list of answers, as in Socket; here `again` is a
-- result of -1 as `failed` is. `write` writes all it is given.
pub mod Sent
pub mod Received
pub mod Whole
pub mod Ended
pub mod Cut
mod Tests
use Prim.Native.Nat.{min}
use linux_os_coding.Base.{
  ℕ, zero, suc, ◌+◌, ◌-◌, ◌≡◌, Bool, true, false, ltb, ◌==◌, if◌then◌else◌, Option, none, some,
  List, [], ◌∷◌, ◌++◌, length, take, drop, replicate, Run, ok, fault,
}
use linux_os_coding.Base.Int.{ℤ, pos, negsuc, eqb_ℤ, pos_part}
use linux_os_coding.Base.Text.{Text, fill, c_string}
use linux_os_coding.Base.Bytes.{int_bytes, int_value, le_bytes}
use linux_os_coding.Socket.{Answer, took, Arrival, chunk, keep}

-- A run that ends, waits for ever, or meets undefined behaviour.
pub data Wait (A : Type 0) : Type 0 where
  done : A → Wait A
  blocked : Wait A
  broken : Wait A

infixl 5 ◌>>=◌
abbrev pub ◌>>=◌ : {A B : Type 0} → Wait A → (A → Wait B) → Wait B
done a >>= next = next a
blocked >>= next = blocked
broken >>= next = broken

abbrev pub of_run : {A : Type 0} → Run A → Wait A
of_run (ok a) = done a
of_run fault = broken

-- `sizeof(t.buf)`
unfoldable pub train_size : ℕ
train_size = 1000

-- The loop of `send_n`: what it returns and the bytes on the wire.
unfoldable pub send_loop :
    List Answer → (buf : Text) → (total : ℕ) → (wire : Text) → Wait (ℤ × Text × List Answer)
send_loop [] buf total wire = if ltb total (length buf) then blocked else done (pos 0, wire, [])
send_loop (Answer.failed ∷ more) buf total wire =
    if ltb total (length buf)
    then done (negsuc 0, wire, more)
    else done (pos 0, wire, Answer.failed ∷ more)
send_loop (Answer.again ∷ more) buf total wire =
    if ltb total (length buf)
    then done (negsuc 0, wire, more)
    else done (pos 0, wire, Answer.again ∷ more)
send_loop (took n ∷ more) buf total wire =
    let ret_num = min n (length buf - total) in
    let rest = send_loop more buf (total + ret_num) (wire ++ take ret_num (drop total buf)) in
    if ltb total (length buf) then rest else done (pos 0, wire, took n ∷ more)

unfoldable pub send_n : List Answer → Text → Wait (ℤ × Text × List Answer)
send_n answers buf = send_loop answers buf 0 []

-- How `tran_file` ends: it returns behind `close`, or `check_error` ends the process.
pub data End : Type 0 where
  returned : End
  exited : End

-- `goto end` where a message has not been sent.
unfoldable pub unless_closed :
    (ℤ × Text × List Answer) → (List Answer → Wait (End × Text)) → Wait (End × Text)
unless_closed (ret_num, wire, answers) next =
    if eqb_ℤ ret_num (negsuc 0)
    then done (returned, wire)
    else (next answers >>= λ (r : End × Text). done (r.0, wire ++ r.1))

-- The first `4 + len` bytes of a `Train` whose buffer begins with `buf`. A `len` of -1 leaves three.
unfoldable pub train : (len : ℤ) → Text → Text
train (pos n) buf = int_bytes (pos n) ++ take n buf
train (negsuc n) buf = take (3 - n) (int_bytes (negsuc n))

-- The last message, whatever becomes of it.
unfoldable pub send_last : List Answer → (len : ℤ) → Wait (End × Text)
send_last answers len = do
  (ret_num, wire, more) ← send_n answers (train len [])
  done (returned, wire)

-- The loop over `read`, with its results: bytes, none of them at the end of the file, or an error.
unfoldable pub read_loop : List (Option Text) → List Answer → Wait (End × Text)
read_loop [] answers = blocked
read_loop (none ∷ reads) answers = send_last answers (negsuc 0)
read_loop (some [] ∷ reads) answers = send_last answers (pos 0)
read_loop (some (b ∷ bytes) ∷ reads) answers = do
  sent ← send_n answers (train (pos (length (b ∷ bytes))) (b ∷ bytes))
  unless_closed sent (read_loop reads)

-- `st_size` is what `stat` says, `opens` whether `open` succeeds.
unfoldable pub tran_file :
    (filename : Text)
    → (st_size : ℕ) → (opens : Bool) → List (Option Text)
    → List Answer
    → Wait (End × Text)
tran_file filename st_size opens reads answers = do
  buf ← of_run (fill train_size filename)
  name_sent ← send_n answers (train (pos (length buf)) buf)
  unless_closed name_sent (λ answers1.
      send_n answers1 (train (pos 8) (le_bytes 8 st_size)) >>= λ size_sent.
      unless_closed size_sent
        (λ answers2. if opens then read_loop reads answers2 else done (exited, [])))

-- Bytes that are written into memory from an index on.
abbrev pub store_at : (total : ℕ) → (bytes memory : Text) → Text
store_at total bytes memory = take total memory ++ bytes ++ drop (total + length bytes) memory

-- `recv` in front of the buffer: a result of -1 before the first byte has taken the index below 0.
unfoldable pub in_front : List Arrival → (memory : Text) → Wait (ℤ × Text × List Arrival)
in_front [] memory = blocked
in_front (chunk [] ∷ more) memory = done (negsuc 1, memory, more)
in_front (chunk (b ∷ bytes) ∷ more) memory = broken
in_front (Arrival.again ∷ more) memory = in_front more memory
in_front (Arrival.failed ∷ more) memory = in_front more memory

-- The client's loop: a result of -1 is added to `total` like any other. `cap` is the size of the memory.
unfoldable pub recv_loop :
    (cap : ℕ) → List Arrival → (buflen total : ℕ) → (memory : Text) → Wait (ℤ × Text × List Arrival)
recv_loop cap [] buflen total memory =
    if ltb total buflen then blocked else done (pos 0, memory, [])
recv_loop cap (Arrival.again ∷ more) buflen total memory =
    let back : Wait (ℤ × Text × List Arrival) = elim total [
      | zero ↦ in_front more memory
      | suc t ↦ recv_loop cap more buflen t memory
    ] in
    if ltb total buflen then back else done (pos 0, memory, Arrival.again ∷ more)
recv_loop cap (Arrival.failed ∷ more) buflen total memory =
    let back : Wait (ℤ × Text × List Arrival) = elim total [
      | zero ↦ in_front more memory
      | suc t ↦ recv_loop cap more buflen t memory
    ] in
    if ltb total buflen then back else done (pos 0, memory, Arrival.failed ∷ more)
recv_loop cap (chunk bytes ∷ more) buflen total memory =
    let ret_num = min (length bytes) (buflen - total) in
    let memory' = store_at total (take ret_num bytes) memory in
    let rest = recv_loop cap more buflen (total + ret_num) memory' in
    if ltb total buflen
    then if ret_num == 0
      then done (negsuc 1, memory, more)
      else if ltb cap (total + ret_num)
      then broken
      else if ltb (total + ret_num) buflen
      then rest
      else done (pos 0, memory', keep ret_num bytes more)
    else done (pos 0, memory, chunk bytes ∷ more)

-- A negative `buflen` asks for nothing.
unfoldable pub recv_n :
    (cap : ℕ) → List Arrival → (buflen : ℤ) → (memory : Text) → Wait (ℤ × Text × List Arrival)
recv_n cap arrivals buflen memory = recv_loop cap arrivals (pos_part buflen) 0 memory

-- The loop of the client on fuel: the bytes that it writes into the file. `len` and `buf` are memory.
unfoldable pub download : (fuel : ℕ) → List Arrival → (len buf : Text) → Wait Text
download zero arrivals len buf = blocked
download (suc fuel) arrivals len buf = do
  (ret_num, len', arrivals1) ← recv_n 4 arrivals (pos 4) len
  let n : ℕ = pos_part (int_value len')
  if eqb_ℤ ret_num (negsuc 1)
      then done []
      else if ltb 0 n
      then (do
        (ret_num2, buf', arrivals2) ← recv_n train_size arrivals1 (pos n) buf
        if eqb_ℤ ret_num2 (negsuc 1)
            then done []
            else (download fuel arrivals2 len' buf' >>= λ rest. done (take n buf' ++ rest)))
      else done []

-- The client: the name and the content of the file that it leaves, `none` where `open` fails. `junk` is
-- what the memory of `len` holds before anything is written to it. There is no O_TRUNC: what the
-- file held behind the last byte written, it keeps.
unfoldable pub client :
    (fuel : ℕ)
    → (opens : Text → Bool) → (old : Text → Text) → (junk : Text) → List Arrival
    → Wait (Option (Text × Text))
client fuel opens old junk arrivals = do
  (ret_num, len, arrivals1) ← recv_n 4 arrivals (pos 4) junk
  (ret_num2, buf, arrivals2) ← recv_n train_size arrivals1 (int_value len) (replicate train_size 0)
  name ← of_run (c_string buf)
  if opens name
      then (do
        (ret_num3, len', arrivals3) ← recv_n 4 arrivals2 (pos 4) len
        (ret_num4, f_size, arrivals4) ← recv_n 8 arrivals3 (int_value len') (replicate 8 0)
        content ← download fuel arrivals4 len' buf
        done (some (name, content ++ drop (length content) (old name))))
      else done none
