-- ===== src/Train/Ended.antt =====
-- A read that ends before the stream does, and a read that meets its end.
use Prim.Native.Nat.{min}
use linux_os_coding.Base.{
  ℕ, ◌+◌, ◌-◌, ◌≤◌, ◌<◌, ◌≡◌, refl, true, false, ltb, ◌==◌, Bool-cases, inl, inr, List, [], ◌∷◌,
  ◌++◌, length, length-append, take, arith, lt→ltb,
}
use linux_os_coding.Base.Int.{ℤ, pos, negsuc}
use linux_os_coding.Base.Text.{Text}
use linux_os_coding.Socket.{Arrival, chunk, keep}
use linux_os_coding.Socket.Recv.{stream}
use linux_os_coding.Train.{Wait, done, blocked, broken, store_at, recv_loop, recv_n}
use linux_os_coding.Train.Received.{Clean}

-- What follows the end of the stream does not matter to a read that ends before.
abbrev Extends : (tail : List Arrival) → (short long : Wait (ℤ × Text × List Arrival)) → Type 0
Extends tail (done (r, memory, rest)) long = long ≡ done (r, memory, rest ++ tail)
Extends tail blocked long = Unit
Extends tail broken long = Unit

pub keep-append :
    (n : ℕ) (bytes : Text) (more tail : List Arrival)
    → keep n bytes (more ++ tail) ≡ keep n bytes more ++ tail
keep-append n bytes more tail = elim (Bool-cases (ltb n (length bytes))) [
  | inl left ↦ rw left refl
  | inr all ↦ rw all refl
]

module _ (size : ℕ) (tail : List Arrival) (buflen : ℕ) where
  loop-Extends :
      (a : List Arrival) (total : ℕ) (memory : Text)
      → Clean a
      → ltb total buflen ≡ true
      → Extends tail
          (recv_loop size a buflen total memory)
          (recv_loop size (a ++ tail) buflen total memory)
  unfolding recv_loop
  loop-Extends [] total memory c w = rw w tt
  loop-Extends (chunk bytes ∷ more) total memory (h, c) w =
      let m = min (length bytes) (buflen - total) in
      let some_bytes : (m == 0) ≡ false = ground arith in
      rw (w, some_bytes)
        (elim (Bool-cases (ltb size (total + m))) [
          | inl out ↦ rw out tt
          | inr room ↦ rw room (elim (Bool-cases (ltb (total + m) buflen)) [
            | inl short ↦
                rw short
                  (loop-Extends more (total + m) (store_at total (take m bytes) memory) c short)
            | inr full ↦ rw (full, keep-append m bytes more tail) refl
          ])
        ])
  loop-Extends (Arrival.again ∷ more) total memory c w = absurd c
  loop-Extends (Arrival.failed ∷ more) total memory c w = absurd c

-- The result of a read that meets the end of the stream.
abbrev pub Ended : Wait (ℤ × Text × List Arrival) → Type 0
Ended out = (memory : Text) × (rest : List Arrival) × (out ≡ done (negsuc 1, memory, rest))

module _ (size : ℕ) (tail : List Arrival) (buflen : ℕ) (fits : buflen ≤ size) where
  loop-Ended :
      (a : List Arrival) (total : ℕ) (memory : Text)
      → Clean a
      → total + length (stream a) < buflen
      → Ended (recv_loop size (a ++ chunk [] ∷ tail) buflen total memory)
  unfolding recv_loop
  loop-Ended [] total memory c short =
      let left : ltb total buflen ≡ true = ground arith in
      let none_there : (min 0 (buflen - total) == 0) ≡ true = ground arith in
      rw (left, none_there) (memory, tail, refl)
  loop-Ended (chunk bytes ∷ more) total memory (h, c) short =
      let count = length-append bytes (stream more) in
      let m = min (length bytes) (buflen - total) in
      let left : ltb total buflen ≡ true = ground (arith, count) in
      let some_bytes : (m == 0) ≡ false = ground (arith, count) in
      let room : ltb size (total + m) ≡ false = ground (arith, count) in
      let more_wanted : ltb (total + m) buflen ≡ true = ground (arith, count) in
      rw (left, some_bytes, room, more_wanted)
        (loop-Ended more (total + m) (store_at total (take m bytes) memory) c
          (omega (arith, count)))
  loop-Ended (Arrival.again ∷ more) total memory c short = absurd c
  loop-Ended (Arrival.failed ∷ more) total memory c short = absurd c

pub recv_n-Extends :
    (size : ℕ) (tail a rest : List Arrival) (n : ℕ) (memory memory' : Text) (r : ℤ)
    → Clean a
    → 0 < n
    → recv_n size a (pos n) memory ≡ done (r, memory', rest)
    → recv_n size (a ++ tail) (pos n) memory ≡ done (r, memory', rest ++ tail)
unfolding recv_n
recv_n-Extends size tail a rest n memory memory' r c some_bytes e =
    rw e at (loop-Extends size tail n a 0 memory c (lt→ltb 0 n some_bytes))

pub recv_n-Ended :
    (size : ℕ) (tail a : List Arrival) (n : ℕ) (memory : Text)
    → Clean a
    → length (stream a) < n
    → n ≤ size
    → Ended (recv_n size (a ++ chunk [] ∷ tail) (pos n) memory)
unfolding recv_n
recv_n-Ended size tail a n memory c short fits =
    loop-Ended size tail n fits a 0 memory c (omega arith)
