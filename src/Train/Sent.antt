-- ===== src/Train/Sent.antt =====
-- What `tran_file` puts on the wire where the kernel takes bytes in every call.
use Prim.Native.Nat.{min}
use linux_os_coding.Base.{
  ℕ, ◌+◌, ◌-◌, ◌≤◌, ◌<◌, ◌≡◌, refl, sym, ap, ◌∙◌, true, false, ltb, Bool-cases, inl, inr, Option,
  some, List, [], ◌∷◌, ◌++◌, length, length-append, take, drop, take-add, take-all, append-nil,
  arith,
}
use linux_os_coding.Base.Int.{ℤ, pos}
use linux_os_coding.Base.Text.{Text, fill-ok}
use linux_os_coding.Base.Bytes.{int_bytes, le_bytes, length-le_bytes}
use linux_os_coding.Socket.{Answer, took}
use linux_os_coding.Train.{
  Wait, done, ◌>>=◌, train_size, send_loop, send_n, End, returned, unless_closed, train, send_last,
  read_loop, tran_file,
}

-- The kernel takes at least a byte in every call.
abbrev pub Takes : List Answer → Type 0
Takes [] = Unit
Takes (took n ∷ more) = (0 < n) × Takes more
Takes (a ∷ more) = ⊥

-- All of `buf` is sent, in at most so many calls as it has bytes behind the first `total`.
abbrev pub AllSent : List Answer → Text → (total : ℕ) → Wait (ℤ × Text × List Answer) → Type 0
AllSent answers buf total out =
    (more : List Answer) × (out ≡ done (pos 0, buf, more))
    × Takes more
    × (total + length answers ≤ length more + length buf)

loop-AllSent :
    (answers : List Answer) (buf : Text) (total : ℕ) (wire : Text)
    → Takes answers
    → total ≤ length buf
    → wire ≡ take total buf
    → length buf ≤ total + length answers
    → AllSent answers buf total (send_loop answers buf total wire)
unfolding send_loop
loop-AllSent [] buf total wire t le e enough =
    let whole : ltb total (length buf) ≡ false = ground arith in
    rw whole (
      [],
      rw e (ap (λ (w : Text). done (pos 0, w, [])) (take-all total buf (omega arith))),
      tt,
      omega arith,
    )
loop-AllSent (took n ∷ more) buf total wire (t, ts) le e enough =
    elim (Bool-cases (ltb total (length buf))) [
      | inl left ↦
          let m = min n (length buf - total) in
          let (rest, out, takes, count) : AllSent more buf (total + m)
              (send_loop more buf (total + m) (wire ++ take m (drop total buf))) =
            loop-AllSent more buf (total + m) (wire ++ take m (drop total buf)) ts (omega arith)
              (rw e (sym (take-add total m buf))) (ground arith) in
          rw left (rest, out, takes, ground arith)
      | inr whole ↦ rw whole (
        took n ∷ more,
        rw e
            (ap (λ (w : Text). done (pos 0, w, took n ∷ more)) (take-all total buf (ground arith))),
        (t, ts),
        omega arith,
      )
    ]
loop-AllSent (Answer.again ∷ more) buf total wire t le e enough = absurd t
loop-AllSent (Answer.failed ∷ more) buf total wire t le e enough = absurd t

send_n-AllSent :
    (answers : List Answer) (buf : Text)
    → Takes answers
    → length buf ≤ length answers
    → AllSent answers buf 0 (send_n answers buf)
unfolding send_n
send_n-AllSent answers buf t enough =
    loop-AllSent answers buf 0 [] t (omega arith) refl (omega arith)

-- A message and what follows it.
message_then :
    (answers : List Answer) (buf w : Text) (k : ℕ) (next : List Answer → Wait (End × Text))
    → Takes answers
    → length buf + k ≤ length answers
    → ((more : List Answer) → Takes more → k ≤ length more → next more ≡ done (returned, w))
    → (send_n answers buf >>= λ sent. unless_closed sent next) ≡ done (returned, buf ++ w)
unfolding unless_closed
message_then answers buf w k next t enough h =
    let (more, out, takes, count) = send_n-AllSent answers buf t (omega arith) in
    rw (out, h more takes (omega arith)) refl

-- A frame with all of a text.
abbrev pub frame : Text → Text
frame s = int_bytes (pos (length s)) ++ s

train_whole : (s : Text) → train (pos (length s)) s ≡ frame s
unfolding train
train_whole s =
    ap (λ (t : Text). int_bytes (pos (length s)) ++ t) (take-all (length s) s (omega arith))

-- The frames of the pieces of a file, and the empty one behind them.
abbrev pub frames : List Text → Text
frames [] = int_bytes (pos 0)
frames (p ∷ ps) = frame p ++ frames ps

-- The pieces that `read` returns, and the end of the file.
abbrev pub reads_of : List Text → List (Option Text)
reads_of [] = some [] ∷ []
reads_of (p ∷ ps) = some p ∷ reads_of ps

-- A piece is not empty and fits into the buffer.
abbrev pub Pieces : List Text → Type 0
Pieces [] = Unit
Pieces (p ∷ ps) = (0 < length p) × (length p ≤ train_size) × Pieces ps

last_sent :
    (answers : List Answer)
    → Takes answers
    → length (int_bytes (pos 0)) ≤ length answers
    → send_last answers (pos 0) ≡ done (returned, int_bytes (pos 0))
unfolding send_last train
last_sent answers t enough =
    let (more, out, takes, count) = send_n-AllSent answers (int_bytes (pos 0)) t enough in
    rw (append-nil (int_bytes (pos 0)), out) refl

read_loop-frames :
    (ps : List Text) (answers : List Answer)
    → Pieces ps
    → Takes answers
    → length (frames ps) ≤ length answers
    → read_loop (reads_of ps) answers ≡ done (returned, frames ps)
unfolding read_loop
read_loop-frames [] answers h t enough = last_sent answers t enough
read_loop-frames ([] ∷ ps) answers (e, fits, h) t enough = absurd (omega arith)
read_loop-frames ((b ∷ p) ∷ ps) answers (e, fits, h) t enough = rw (train_whole (b ∷ p)) (
    message_then answers (frame (b ∷ p)) (frames ps) (length (frames ps)) (read_loop (reads_of ps))
      t (omega (arith, length-append (frame (b ∷ p)) (frames ps)))
      (λ more takes left. read_loop-frames ps more h takes left))

-- What `tran_file` sends of a file with this name, size and pieces.
abbrev pub file_wire : (filename : Text) → (st_size : ℕ) → List Text → Text
file_wire filename st_size ps = frame filename ++ (frame (le_bytes 8 st_size) ++ frames ps)

-- Where the name fits into the buffer, the file opens, and the kernel takes bytes in as many calls as
-- the message is long: `tran_file` returns and has sent name, size, the pieces of the file as they
-- were read, and the empty frame.
pub tran_file-wire :
    (filename : Text) (st_size : ℕ) (ps : List Text) (answers : List Answer)
    → length filename < train_size
    → Pieces ps
    → Takes answers
    → length (file_wire filename st_size ps) ≤ length answers
    → tran_file filename st_size true (reads_of ps) answers
      ≡ done (returned, file_wire filename st_size ps)
unfolding tran_file
tran_file-wire filename st_size ps answers short h t enough =
    let size_frame = frame (le_bytes 8 st_size) in
    let e8 : train (pos 8) (le_bytes 8 st_size) ≡ size_frame =
      ap (λ (n : ℕ). train (pos n) (le_bytes 8 st_size)) (sym (length-le_bytes 8 st_size))
      ∙ train_whole (le_bytes 8 st_size) in
    rw (fill-ok train_size filename short, train_whole filename, e8)
      (message_then answers (frame filename) (size_frame ++ frames ps)
        (length (size_frame ++ frames ps)) _ t
        (omega (arith, length-append (frame filename) (size_frame ++ frames ps)))
        (λ more takes left.
          message_then more size_frame (frames ps) (length (frames ps)) _ takes
            (omega (arith, length-append size_frame (frames ps)))
            (λ more' takes' left'. read_loop-frames ps more' h takes' left')))
