-- ===== src/Socket/Send.antt =====
-- `send_n`: what is on the wire, and when it returns.
use Prim.Native.Nat.{min}
use linux_os_coding.Base.{
  ℕ, ◌+◌, ◌-◌, ◌<◌, ◌≤◌, ◌≡◌, refl, ap, sym, ◌∙◌, Option, some, none, List, [], ◌∷◌, ◌++◌, length,
  take, drop, ◌⊎◌, inl, inr, arith, Bool-cases, ltb, true, false, ◌==◌, take-add,
}
use linux_os_coding.Base.Int.{ℤ, pos, negsuc}
use linux_os_coding.Base.Text.{Text}
use linux_os_coding.Socket.{Answer, took, send_loop, send_n}

-- The bytes on the wire are the first `k` of the buffer, all of them exactly if 1 is returned; a
-- failure is -1 and a closed stream 0.
abbrev pub Sent : Text → Option (ℤ × Text × List Answer) → Type 0
Sent buf none = Unit
Sent buf (some (r, wire, acks)) =
    (k : ℕ) × (wire ≡ take k buf)
    × (((r ≡ pos 1) × (k ≡ length buf)) ⊎ (((r ≡ pos 0) ⊎ (r ≡ negsuc 0)) × (k < length buf)))

loop-Sent :
    (acks : List Answer) (buf : Text) (total : ℕ) (wire : Text)
    → total ≤ length buf
    → wire ≡ take total buf
    → Sent buf (send_loop acks buf total wire)
unfolding send_loop
loop-Sent [] buf total wire le e = elim (Bool-cases (ltb total (length buf))) [
  | inl more ↦ rw more tt
  | inr done ↦ rw done (total, e, ground arith)
]
loop-Sent (Answer.failed ∷ acks) buf total wire le e = elim (Bool-cases (ltb total (length buf))) [
  | inl more ↦ rw more (total, e, ground arith)
  | inr done ↦ rw done (total, e, ground arith)
]
loop-Sent (Answer.again ∷ acks) buf total wire le e = elim (Bool-cases (ltb total (length buf))) [
  | inl more ↦ rw more (loop-Sent acks buf total wire le e)
  | inr done ↦ rw done (total, e, ground arith)
]
loop-Sent (took n ∷ acks) buf total wire le e = elim (Bool-cases (ltb total (length buf))) [
  | inl more ↦ rw more (elim (Bool-cases (min n (length buf - total) == 0)) [
    | inl shut ↦ rw shut (total, e, ground arith)
    | inr some_bytes ↦ rw some_bytes (
        loop-Sent acks buf (total + min n (length buf - total)) _ (omega arith) (
          ap (λ (t : Text). t ++ take (min n (length buf - total)) (drop total buf)) e
          ∙ sym (take-add total _ buf)))
  ])
  | inr done ↦ rw done (total, e, ground arith)
]

-- Whatever the kernel answers, `send_n` puts a prefix of the buffer on the wire, in order and once:
-- the whole buffer if it returns 1, less than all of it if it returns 0 or -1.
pub send_n-Sent : (acks : List Answer) (buf : Text) → Sent buf (send_n acks buf)
unfolding send_n
send_n-Sent acks buf = loop-Sent acks buf 0 [] (omega arith) refl

-- The answers make progress: no failure, no closed stream, and `n` calls at least that take bytes.
abbrev pub Progress : ℕ → List Answer → Type 0
Progress n [] = n ≡ 0
Progress n (Answer.failed ∷ acks) = n ≡ 0
Progress n (Answer.again ∷ acks) = Progress n acks
Progress n (took k ∷ acks) = (n ≡ 0) ⊎ ((0 < k) × Progress (n - 1) acks)

loop-returns :
    (acks : List Answer) (buf : Text) (total : ℕ) (wire : Text) (n : ℕ)
    → length buf ≤ total + n
    → Progress n acks
    → (w : Text) × (rest : List Answer) × (send_loop acks buf total wire ≡ some (pos 1, w, rest))
unfolding send_loop
loop-returns [] buf total wire n le p = (wire, [], ground arith)
loop-returns (Answer.failed ∷ acks) buf total wire n le p =
    (wire, Answer.failed ∷ acks, ground arith)
loop-returns (Answer.again ∷ acks) buf total wire n le p =
    elim (Bool-cases (ltb total (length buf))) [
      | inl more ↦ rw more (loop-returns acks buf total wire n le p)
      | inr done ↦ (wire, Answer.again ∷ acks, rw done)
    ]
loop-returns (took k ∷ acks) buf total wire n le p = elim (Bool-cases (ltb total (length buf))) [
  | inl more ↦ rw more (elim p [
    | inl none_left ↦ absurd (ground arith)
    | inr (pk, q) ↦ rw (takes pk more) (loop-returns acks buf _ _ (n - 1) (fits pk more) q)
  ])
  | inr done ↦ (wire, took k ∷ acks, rw done)
]
  where
    takes : 0 < k → ltb total (length buf) ≡ true → (min k (length buf - total) == 0) ≡ false
    takes pk more = ground arith

    fits :
        0 < k
        → ltb total (length buf) ≡ true
        → length buf ≤ total + min k (length buf - total) + (n - 1)
    fits pk more = ground arith

-- `send_n` returns 1 once the kernel has taken bytes in as many calls as the buffer is long, with
-- any interruptions between them.
pub send_n-returns :
    (acks : List Answer) (buf : Text)
    → Progress (length buf) acks
    → (w : Text) × (rest : List Answer) × (send_n acks buf ≡ some (pos 1, w, rest))
unfolding send_n
send_n-returns acks buf p = loop-returns acks buf 0 [] (length buf) (omega arith) p
