-- ===== src/Train/Received.antt =====
-- The client's `recv_n` on a stream that brings enough: as in Socket, into memory.
use Prim.Native.Nat.{min}
use linux_os_coding.Base.{
  ℕ, zero, suc, ◌+◌, ◌-◌, ◌≤◌, ◌<◌, ◌≡◌, refl, sym, ap, ◌∙◌, false, ltb, ◌==◌, Bool-cases, inl, inr,
  Option, none, some, List, [], ◌∷◌, ◌++◌, length, length-append, length-take, length-drop, take,
  drop, take-all, drop-all, take-append_le, drop-append_ge, arith, ltb→lt,
}
use linux_os_coding.Base.Int.{ℤ, pos}
use linux_os_coding.Base.Text.{Text}
use linux_os_coding.Socket.{Arrival, chunk, keep}
use linux_os_coding.Socket
use linux_os_coding.Socket.Recv.{stream, Alive, Received, recv_n-Received}
use linux_os_coding.Train.{Wait, done, blocked, store_at, recv_loop, recv_n}

-- Bytes arrive in every call.
abbrev pub Clean : List Arrival → Type 0
Clean [] = Unit
Clean (chunk bytes ∷ more) = (0 < length bytes) × Clean more
Clean (a ∷ more) = ⊥

pub Clean-Alive : (more : List Arrival) → Clean more → Alive more
Clean-Alive [] h = tt
Clean-Alive (chunk bytes ∷ more) (h, hs) = (h, Clean-Alive more hs)
Clean-Alive (Arrival.again ∷ more) h = absurd h
Clean-Alive (Arrival.failed ∷ more) h = absurd h

keep-Clean : (n : ℕ) (bytes : Text) (more : List Arrival) → Clean more → Clean (keep n bytes more)
keep-Clean n bytes more h = elim (Bool-cases (ltb n (length bytes))) [
  | inl left ↦ rw left (omega (arith, length-drop n bytes, ltb→lt n (length bytes) left), h)
  | inr all ↦ rw all h
]

-- `bytes` have been written over the start of `memory`.
abbrev pub over : (memory bytes : Text) → Text
over memory bytes = bytes ++ drop (length bytes) memory

drop_twice : (a b : ℕ) (xs : Text) → drop b (drop a xs) ≡ drop (a + b) xs
drop_twice zero b xs = ap (λ (n : ℕ). drop n xs) (omega arith)
drop_twice (suc a) b [] = drop-all b [] (omega arith) ∙ sym (drop-all (suc a + b) [] (omega arith))
drop_twice (suc a) b (x ∷ xs) = drop_twice a b xs ∙ ap (λ (n : ℕ). drop n (x ∷ xs)) (suc_plus a b)
  where
    suc_plus : (a b : ℕ) → suc (a + b) ≡ suc a + b
    suc_plus a b = omega arith

store_at-over :
    (memory buf bytes : Text)
    → store_at (length buf) bytes (over memory buf) ≡ over memory (buf ++ bytes)
store_at-over memory buf bytes =
    ap (λ (t : Text). t ++ bytes ++ drop (length buf + length bytes) (over memory buf))
      (take-append_le (length buf) buf (drop (length buf) memory) (omega arith)
        ∙ take-all (length buf) buf (omega arith))
    ∙ ap (λ (t : Text). buf ++ bytes ++ t)
        (drop-append_ge (length bytes) buf (drop (length buf) memory)
          ∙ drop_twice (length buf) (length bytes) memory
          ∙ ap (λ (n : ℕ). drop n memory) (sym (length-append buf bytes)))

-- The result in memory is that of Socket, with 0 for 1.
abbrev Mirrors :
    (memory : Text) → Option (ℤ × Text × List Arrival) → Wait (ℤ × Text × List Arrival) → Type 0
Mirrors memory none out = out ≡ blocked
Mirrors memory (some (r, buf, rest)) out = (out ≡ done (pos 0, over memory buf, rest)) × Clean rest

loop-Mirrors :
    (size : ℕ) (more : List Arrival) (buflen total : ℕ) (memory buf : Text)
    → Clean more
    → length buf ≡ total
    → total ≤ buflen
    → buflen ≤ size
    → Mirrors memory
        (Socket.recv_loop more buflen total buf)
        (recv_loop size more buflen total (over memory buf))
unfolding recv_loop Socket.recv_loop
loop-Mirrors size [] buflen total memory buf c e le fits = elim (Bool-cases (ltb total buflen)) [
  | inl left ↦ rw left refl
  | inr whole ↦ rw whole (refl, tt)
]
loop-Mirrors size (chunk bytes ∷ more) buflen total memory buf (h, c) e le fits =
    elim (Bool-cases (ltb total buflen)) [
      | inl left ↦
          let m = min (length bytes) (buflen - total) in
          let some_bytes : (m == 0) ≡ false = ground arith in
          let room : ltb size (total + m) ≡ false = ground arith in
          let stored : store_at total (take m bytes) (over memory buf)
              ≡ over memory (buf ++ take m bytes) =
            ap (λ (n : ℕ). store_at n (take m bytes) (over memory buf)) (sym e)
            ∙ store_at-over memory buf (take m bytes) in
          rw (left, some_bytes, room, stored)
            (elim (Bool-cases (ltb (total + m) buflen)) [
              | inl short ↦ rw short (
                  loop-Mirrors size more buflen (total + m) memory (buf ++ take m bytes) c
                    (omega (arith, e, length-append buf (take m bytes), length-take m bytes))
                    (omega arith) fits)
              | inr full ↦ rw full (refl, keep-Clean m bytes more c)
            ])
      | inr whole ↦ rw whole (refl, (h, c))
    ]
loop-Mirrors size (Arrival.again ∷ more) buflen total memory buf c e le fits = absurd c
loop-Mirrors size (Arrival.failed ∷ more) buflen total memory buf c e le fits = absurd c

-- `n` bytes are read over the start of the memory, and the others are left.
abbrev pub Reads : (n : ℕ) → Text → (memory : Text) → Wait (ℤ × Text × List Arrival) → Type 0
Reads n after memory out =
    (rest : List Arrival) × (out ≡ done (pos 0, over memory (take n after), rest))
    × (stream rest ≡ drop n after)
    × Clean rest

mirror-Reads :
    (n : ℕ) (after memory : Text) (o : Option (ℤ × Text × List Arrival))
    (out : Wait (ℤ × Text × List Arrival))
    → Received n [] after o
    → Mirrors memory o out
    → Reads n after memory out
mirror-Reads n after memory none out r m = absurd r
mirror-Reads n after memory (some (one, got, rest)) out (o, e, left, alive) (m, clean) =
    (rest, m ∙ ap (λ (t : Text). done (pos 0, over memory t, rest)) e, left, clean)

pub recv_n-Reads :
    (size : ℕ) (more : List Arrival) (n : ℕ) (memory : Text)
    → Clean more
    → n ≤ length (stream more)
    → n ≤ size
    → Reads n (stream more) memory (recv_n size more (pos n) memory)
unfolding recv_n Socket.recv_n
recv_n-Reads size more n memory c enough fits =
    mirror-Reads n (stream more) memory (Socket.recv_n more n) _
      (recv_n-Received more n enough (Clean-Alive more c))
      (loop-Mirrors size more n 0 memory [] c refl (omega arith) fits)
