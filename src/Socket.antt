-- ===== src/Socket.antt =====
-- NET_DISK_TASK/SERVER/src/r_s_api.c: whole messages over a stream socket. What the kernel does with
-- each call of `send` or `recv` is a list of answers, in order; a list that ends while the code
-- still waits gives `none`, a thread that stays blocked.
pub mod Send
pub mod Recv
mod Tests
use Prim.Native.Nat.{min}
use linux_os_coding.Base.{
  ℕ, ◌+◌, ◌-◌, ltb, ◌==◌, if◌then◌else◌, Option, some, none, List, [], ◌∷◌, ◌++◌, length, take,
  drop,
}
use linux_os_coding.Base.Int.{ℤ, pos, negsuc}
use linux_os_coding.Base.Text.{Text}

-- `send`: the kernel takes up to so many bytes, is interrupted (`EINTR`, `EAGAIN`), or fails.
pub data Answer : Type 0 where
  took : ℕ → Answer
  again : Answer
  failed : Answer

-- `recv`: bytes that have arrived, none of them at the end of the stream; else as above.
pub data Arrival : Type 0 where
  chunk : Text → Arrival
  again : Arrival
  failed : Arrival

-- The loop of `send_n`, with the bytes on the wire.
unfoldable pub send_loop :
    List Answer → (buf : Text) → (total : ℕ) → (wire : Text) → Option (ℤ × Text × List Answer)
send_loop [] buf total wire = if ltb total (length buf) then none else some (pos 1, wire, [])
send_loop (Answer.failed ∷ more) buf total wire =
    if ltb total (length buf)
    then some (negsuc 0, wire, more)
    else some (pos 1, wire, Answer.failed ∷ more)
send_loop (Answer.again ∷ more) buf total wire =
    let rest = send_loop more buf total wire in
    if ltb total (length buf) then rest else some (pos 1, wire, Answer.again ∷ more)
send_loop (took n ∷ more) buf total wire =
    let ret_num = min n (length buf - total) in
    let rest = send_loop more buf (total + ret_num) (wire ++ take ret_num (drop total buf)) in
    if ltb total (length buf)
    then if ret_num == 0 then some (pos 0, wire, more) else rest
    else some (pos 1, wire, took n ∷ more)

unfoldable pub send_n : List Answer → Text → Option (ℤ × Text × List Answer)
unfolding send_loop
send_n answers buf = send_loop answers buf 0 []

-- What the kernel keeps of a chunk of which `n` bytes have been read.
abbrev pub keep : ℕ → Text → List Arrival → List Arrival
keep n bytes more = if ltb n (length bytes) then chunk (drop n bytes) ∷ more else more

-- The loop of `recv_n`. `buf` holds what has been read, `total` bytes of it.
unfoldable pub recv_loop :
    List Arrival → (buflen : ℕ) → (total : ℕ) → (buf : Text) → Option (ℤ × Text × List Arrival)
recv_loop [] buflen total buf = if ltb total buflen then none else some (pos 1, buf, [])
recv_loop (Arrival.failed ∷ more) buflen total buf =
    if ltb total buflen
    then some (negsuc 0, buf, more)
    else some (pos 1, buf, Arrival.failed ∷ more)
recv_loop (Arrival.again ∷ more) buflen total buf =
    let rest = recv_loop more buflen total buf in
    if ltb total buflen then rest else some (pos 1, buf, Arrival.again ∷ more)
recv_loop (chunk bytes ∷ more) buflen total buf =
    let ret_num = min (length bytes) (buflen - total) in
    let rest = recv_loop more buflen (total + ret_num) (buf ++ take ret_num bytes) in
    if ltb total buflen
    then if ret_num == 0
      then some (pos 0, buf, more)
      else if ltb (total + ret_num) buflen
      then rest
      else some (pos 1, buf ++ take ret_num bytes, keep ret_num bytes more)
    else some (pos 1, buf, chunk bytes ∷ more)

unfoldable pub recv_n : List Arrival → (buflen : ℕ) → Option (ℤ × Text × List Arrival)
unfolding recv_loop
recv_n arrivals buflen = recv_loop arrivals buflen 0 []
