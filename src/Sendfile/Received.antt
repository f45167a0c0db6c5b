-- ===== src/Sendfile/Received.antt =====
-- The client's reads on a stream that ends behind what is read.
use Prim.Native.Nat.{min}
use linux_os_coding.Base.{
  ℕ, ◌+◌, ◌-◌, ◌≤◌, ◌≡◌, refl, sym, ap, ◌∙◌, false, Bool-cases, inl, inr, ltb, ◌==◌, Option, none,
  some, List, [], ◌∷◌, ◌++◌, length, length-append, take, drop-all, append-nil, arith,
}
use linux_os_coding.Base.Int.{ℤ, pos}
use linux_os_coding.Base.Text.{Text}
use linux_os_coding.Base.Bytes.{int_bytes, length-int_bytes}
use linux_os_coding.Socket
use linux_os_coding.Socket.{Answer, Arrival, chunk, keep, send_n}
use linux_os_coding.Socket.Recv.{stream, Alive, Received, recv_n-Received}
use linux_os_coding.Train.{Wait, done}
use linux_os_coding.Train.Received.{over}
use linux_os_coding.Train.Whole.{take_first, drop_first}
use linux_os_coding.Train.Ended.{keep-append}
use linux_os_coding.Sendfile.{recv_n}

-- What a read returns does not depend on what comes behind the message.
abbrev Extends :
    (tail : List Arrival)
    → Option (ℤ × Text × List Arrival)
    → Option (ℤ × Text × List Arrival)
    → Type 0
Extends tail none longer = Unit
Extends tail (some (r, got, rest)) longer = longer ≡ some (r, got, rest ++ tail)

all_got :
    (o : Option (ℤ × Text × List Arrival)) (s w : Text)
    → Received (length s) [] (s ++ w) o
    → (rest : List Arrival) × (o ≡ some (pos 1, s, rest)) × (stream rest ≡ w) × Alive rest
all_got none s w r = absurd r
all_got (some (r, got, rest)) s w (one, same, left, alive) =
    (rest, rw (one, same, take_first s w) refl, left ∙ drop_first s w, alive)

module _ (tail : List Arrival) where
  nothing_wanted :
      (buflen total : ℕ) (buf : Text)
      → ltb total buflen ≡ false
      → (a : List Arrival) → Socket.recv_loop a buflen total buf ≡ some (pos 1, buf, a)
  unfolding Socket.recv_loop
  nothing_wanted buflen total buf full [] = rw full refl
  nothing_wanted buflen total buf full (Arrival.again ∷ more) = rw full refl
  nothing_wanted buflen total buf full (Arrival.failed ∷ more) = rw full refl
  nothing_wanted buflen total buf full (chunk bytes ∷ more) = rw full refl

  loop-Extends :
      (a : List Arrival) (buflen total : ℕ) (buf : Text)
      → Extends tail
          (Socket.recv_loop a buflen total buf)
          (Socket.recv_loop (a ++ tail) buflen total buf)
  unfolding Socket.recv_loop
  loop-Extends [] buflen total buf = elim (Bool-cases (ltb total buflen)) [
    | inl more ↦ rw more tt
    | inr full ↦ rw full (nothing_wanted buflen total buf full tail)
  ]
  loop-Extends (Arrival.again ∷ more) buflen total buf = elim (Bool-cases (ltb total buflen)) [
    | inl wanted ↦ rw wanted (loop-Extends more buflen total buf)
    | inr full ↦ rw full refl
  ]
  loop-Extends (Arrival.failed ∷ more) buflen total buf = elim (Bool-cases (ltb total buflen)) [
    | inl wanted ↦ rw wanted refl
    | inr full ↦ rw full refl
  ]
  loop-Extends (chunk bytes ∷ more) buflen total buf =
      let n = min (length bytes) (buflen - total) in
      elim (Bool-cases (ltb total buflen)) [
        | inr full ↦ rw full refl
        | inl wanted ↦ elim (Bool-cases (n == 0)) [
          | inl closed ↦ rw (wanted, closed) refl
          | inr some_bytes ↦ elim (Bool-cases (ltb (total + n) buflen)) [
            | inl again ↦
                rw (wanted, some_bytes, again)
                  (loop-Extends more buflen (total + n) (buf ++ take n bytes))
            | inr whole ↦ rw (wanted, some_bytes, whole, keep-append n bytes more tail) refl
          ]
        ]
      ]

  -- A read of `s` from a stream that begins with it.
  abbrev pub Next : (s w memory : Text) → Wait (ℤ × Text × List Arrival) → Type 0
  Next s w memory out =
      (rest : List Arrival) × (out ≡ done (pos 0, over memory s, rest ++ tail))
      × (stream rest ≡ w)
      × Alive rest

  pub recv_n-Next :
      (room : ℕ) (a : List Arrival) (s w memory : Text)
      → Alive a
      → stream a ≡ s ++ w
      → length s ≤ room
      → Next s w memory (recv_n room (a ++ tail) (pos (length s)) memory)
  unfolding recv_n Socket.recv_n
  recv_n-Next room a s w memory alive e fits =
      let (rest, got, left, alive') = all_got (Socket.recv_n a (length s)) s w (
        rw e at
          (recv_n-Received a (length s) (omega (arith, ap length e, length-append s w)) alive)) in
      let longer : Socket.recv_loop (a ++ tail) (length s) 0 [] ≡ some (pos 1, s, rest ++ tail) =
        rw got at (loop-Extends a (length s) 0 []) in
      let small_enough : ltb room (length s) ≡ false = ground arith in
      (rest, rw (longer, recv_n, small_enough) refl, left, alive')

  -- A length in front of a message.
  pub recv_n-Header :
      (a : List Arrival) (n : ℕ) (w len : Text)
      → Alive a
      → stream a ≡ int_bytes (pos n) ++ w
      → length len ≡ 4
      → (rest : List Arrival) × (recv_n 4 (a ++ tail) (pos 4) len
          ≡ done (pos 0, int_bytes (pos n), rest ++ tail))
        × (stream rest ≡ w)
        × Alive rest
  recv_n-Header a n w len alive e four =
      let h = int_bytes (pos n) in
      let (rest, out, left, alive') =
        recv_n-Next 4 a h w len alive e (omega (arith, length-int_bytes (pos n))) in
      (
        rest,
        ap (λ (k : ℕ). recv_n 4 (a ++ tail) (pos k) len) (sym (length-int_bytes (pos n)))
            ∙ out
            ∙ ap (λ (t : Text). done (pos 0, t, rest ++ tail))
                (ap (λ (t : Text). h ++ t)
                    (drop-all (length h) len (omega (arith, four, length-int_bytes (pos n))))
                  ∙ append-nil h),
        left,
        alive',
      )
