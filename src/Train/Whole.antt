-- ===== src/Train/Whole.antt =====
-- The file arrives whole.
use linux_os_coding.Base.{
  ℕ, zero, suc, ◌+◌, ◌-◌, ◌^◌, ◌≤◌, ◌<◌, ◌≡◌, refl, sym, ap, ◌∙◌, Bool, true, false, ◌==◌, some,
  List, [], ◌∷◌, ◌++◌, length, length-append, replicate, take, drop, drop-all, take-all,
  take-append_le, drop-append_ge, append_assoc, append-nil, arith, lt→ltb, ok,
}
use linux_os_coding.Base.Int.{ℤ, pos}
use linux_os_coding.Base.Text.{Text, c_string}
use linux_os_coding.Base.Bytes.{
  int_bytes, le_bytes, length-int_bytes, length-le_bytes, int_value-int_bytes,
}
use linux_os_coding.Socket.{Answer, Arrival}
use linux_os_coding.Socket.Recv.{stream}
use linux_os_coding.Train.{Wait, done, train_size, recv_n, download, client, returned, tran_file}
use linux_os_coding.Train.Sent.{Takes, frame, frames, Pieces, reads_of, file_wire, tran_file-wire}
use linux_os_coding.Train.Received.{Clean, over, recv_n-Reads}

-- The next bytes of the stream are `s`, over the start of the memory.
abbrev pub Next : (s w memory : Text) → Wait (ℤ × Text × List Arrival) → Type 0
Next s w memory out =
    (rest : List Arrival) × (out ≡ done (pos 0, over memory s, rest))
    × (stream rest ≡ w)
    × Clean rest

pub take_first : (s w : Text) → take (length s) (s ++ w) ≡ s
take_first s w = take-append_le (length s) s w (omega arith) ∙ take-all (length s) s (omega arith)

pub drop_first : (s w : Text) → drop (length s) (s ++ w) ≡ w
drop_first s w = ap (λ (n : ℕ). drop n (s ++ w)) (plus_zero (length s)) ∙ drop-append_ge 0 s w
  where
    plus_zero : (n : ℕ) → n ≡ n + 0
    plus_zero n = omega arith

pub recv_n-Next :
    (size : ℕ) (a : List Arrival) (s w memory : Text)
    → Clean a
    → stream a ≡ s ++ w
    → length s ≤ size
    → Next s w memory (recv_n size a (pos (length s)) memory)
recv_n-Next size a s w memory c e fits =
    let (rest, out, left, clean) =
      recv_n-Reads size a (length s) memory c (omega (arith, ap length e, length-append s w))
        fits in
    (
      rest,
      out
          ∙ ap (λ (t : Text). done (pos 0, over memory t, rest))
              (ap (λ (t : Text). take (length s) t) e ∙ take_first s w),
      left ∙ ap (λ (t : Text). drop (length s) t) e ∙ drop_first s w,
      clean,
    )

-- The length of a frame.
abbrev pub Header : (n : ℕ) → (w : Text) → Wait (ℤ × Text × List Arrival) → Type 0
Header n w out =
    (rest : List Arrival) × (out ≡ done (pos 0, int_bytes (pos n), rest))
    × (stream rest ≡ w)
    × Clean rest

pub recv_n-Header :
    (a : List Arrival) (n : ℕ) (w len : Text)
    → Clean a
    → stream a ≡ int_bytes (pos n) ++ w
    → length len ≡ 4
    → Header n w (recv_n 4 a (pos 4) len)
recv_n-Header a n w len c e four =
    let h = int_bytes (pos n) in
    let (rest, out, left, clean) =
      recv_n-Next 4 a h w len c e (omega (arith, length-int_bytes (pos n))) in
    (
      rest,
      ap (λ (k : ℕ). recv_n 4 a (pos k) len) (sym (length-int_bytes (pos n)))
          ∙ out
          ∙ ap (λ (t : Text). done (pos 0, t, rest))
              (ap (λ (t : Text). h ++ t)
                  (drop-all (length h) len (omega (arith, four, length-int_bytes (pos n))))
                ∙ append-nil h),
      left,
      clean,
    )

-- A frame and what follows it.
pub frame_first : (s w : Text) → frame s ++ w ≡ int_bytes (pos (length s)) ++ (s ++ w)
frame_first s w = append_assoc (int_bytes (pos (length s))) s w

abbrev pub concat : List Text → Text
concat [] = []
concat (p ∷ ps) = p ++ concat ps

pub small : (n : ℕ) → n ≤ train_size → n < 2 ^ 31
unfolding train_size
small n h = omega arith

download_whole :
    (fuel : ℕ) (ps : List Text) (a : List Arrival) (w len buf : Text)
    → length ps < fuel
    → Pieces ps
    → Clean a
    → stream a ≡ frames ps ++ w
    → length len ≡ 4
    → download fuel a len buf ≡ done (concat ps)
unfolding download
download_whole zero ps a w len buf f h c e four = absurd (omega arith)
download_whole (suc fuel) [] a w len buf f h c e four =
    let (rest, out, left, clean) = recv_n-Header a 0 w len c e four in
    rw (out, int_value-int_bytes 0 (omega arith)) refl
download_whole (suc fuel) (p ∷ ps) a w len buf f (some_bytes, fits, h) c e four =
    let (a1, out1, left1, clean1) =
      recv_n-Header a (length p) (p ++ (frames ps ++ w)) len c
        (e ∙ append_assoc (frame p) (frames ps) w ∙ frame_first p (frames ps ++ w)) four in
    let (a2, out2, left2, clean2) =
      recv_n-Next train_size a1 p (frames ps ++ w) buf clean1 left1 fits in
    rw
      (
        out1,
        int_value-int_bytes (length p) (small (length p) fits),
        lt→ltb 0 (length p) some_bytes,
        out2,
        download_whole fuel ps a2 w (int_bytes (pos (length p))) (over buf p) (omega arith) h clean2
            left2 (length-int_bytes (pos (length p))),
        take_first p (drop (length p) buf),
      )
      refl

-- No byte is NUL.
abbrev pub NoNul : Text → Type 0
NoNul [] = Unit
NoNul (c ∷ s) = ((c == 0) ≡ false) × NoNul s

name_read : (name : Text) (k : ℕ) → NoNul name → c_string (name ++ replicate (suc k) 0) ≡ ok name
unfolding c_string
name_read [] k h = refl
name_read (c ∷ name) k (z, h) = rw (z, c_string, name_read name k h) refl

drop-replicate : (n m : ℕ) → n < m → drop {A = ℕ} n (replicate m 0) ≡ replicate (suc (m - n - 1)) 0
drop-replicate n zero h = absurd (omega arith)
drop-replicate zero (suc m) h =
    let e : suc m ≡ suc (suc m - 0 - 1) = omega arith in ap (λ (k : ℕ). replicate k 0) e
drop-replicate (suc n) (suc m) h =
    let e : suc (m - n - 1) ≡ suc (suc m - suc n - 1) = omega arith in
    drop-replicate n m (omega arith) ∙ ap (λ (k : ℕ). replicate k 0) e

pub name_in_buffer :
    (name : Text)
    → NoNul name
    → length name < train_size
    → c_string (over (replicate train_size 0) name) ≡ ok name
name_in_buffer name h short =
    ap (λ (t : Text). c_string (name ++ t)) (drop-replicate (length name) train_size short)
    ∙ name_read name (train_size - length name - 1) h

module _ (opens : Text → Bool) (old : Text → Text) where
  client_whole :
      (fuel : ℕ) (filename : Text) (st_size : ℕ) (ps : List Text) (a : List Arrival) (w junk : Text)
      → NoNul filename
      → length filename < train_size
      → opens filename ≡ true
      → Pieces ps
      → Clean a
      → stream a ≡ file_wire filename st_size ps ++ w
      → length junk ≡ 4
      → length ps < fuel
      → client fuel opens old junk a
        ≡ done (some (filename, concat ps ++ drop (length (concat ps)) (old filename)))
  unfolding client
  client_whole fuel filename st_size ps a w junk nul short opened h c e four f =
      let size : Text = le_bytes 8 st_size in
      let blank : Text = replicate train_size 0 in
      let (a1, out1, left1, clean1) =
        recv_n-Header a (length filename) (filename ++ ((frame size ++ frames ps) ++ w)) junk c
          (e
            ∙ append_assoc (frame filename) (frame size ++ frames ps) w
            ∙ frame_first filename ((frame size ++ frames ps) ++ w))
          four in
      let (a2, out2, left2, clean2) =
        recv_n-Next train_size a1 filename ((frame size ++ frames ps) ++ w) blank clean1 left1
          (omega arith) in
      let (a3, out3, left3, clean3) =
        recv_n-Header a2 (length size) (size ++ (frames ps ++ w))
          (int_bytes (pos (length filename))) clean2
          (left2 ∙ append_assoc (frame size) (frames ps) w ∙ frame_first size (frames ps ++ w))
          (length-int_bytes (pos (length filename))) in
      let (a4, out4, left4, clean4) =
        recv_n-Next 8 a3 size (frames ps ++ w) (replicate 8 0) clean3 left3
          (omega (arith, length-le_bytes 8 st_size)) in
      rw
        (
          out1,
          int_value-int_bytes (length filename) (small (length filename) (omega arith)),
          out2,
          name_in_buffer filename nul short,
          opened,
          out3,
          int_value-int_bytes (length size) (omega (arith, length-le_bytes 8 st_size)),
          out4,
          download_whole fuel ps a4 w (int_bytes (pos (length size))) (over blank filename) f h
              clean4 left4 (length-int_bytes (pos (length size))),
        )
        refl

  -- The transfer of a file that is read in pieces of at most the size of the buffer, with a name that has
  -- no NUL and leaves room for its own, where both sides can open it and the kernel moves bytes in
  -- every call, in as many calls as needed: `tran_file` sends exactly the frames of name, size and pieces. From these
  -- bytes, however they are cut, and with a round of fuel more than there are pieces, the client ends
  -- with a file of that name that holds the pieces, and behind them what a longer old file held there.
  pub tran_file-client :
      (fuel : ℕ) (filename : Text) (st_size : ℕ) (ps : List Text) (answers : List Answer)
      (a : List Arrival) (junk : Text)
      → NoNul filename
      → length filename < train_size
      → opens filename ≡ true
      → Pieces ps
      → Takes answers
      → length (file_wire filename st_size ps) ≤ length answers
      → Clean a
      → stream a ≡ file_wire filename st_size ps
      → length junk ≡ 4
      → length ps < fuel
      → (tran_file filename st_size true (reads_of ps) answers ≡ done (returned, stream a))
        × (client fuel opens old junk a
            ≡ done (some (filename, concat ps ++ drop (length (concat ps)) (old filename))))
  tran_file-client fuel filename st_size ps answers a junk nul short opened h t enough c e four f =
      (
        tran_file-wire filename st_size ps answers short h t enough
            ∙ ap (λ (w : Text). done (returned, w)) (sym e),
        client_whole fuel filename st_size ps a [] junk nul short opened h c
            (e ∙ sym (append-nil (file_wire filename st_size ps))) four f,
      )
