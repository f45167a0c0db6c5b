-- ===== src/Socket/Recv.antt =====
-- `recv_n`: a message of known length is read whole, and nothing behind it.
use Prim.Native.Nat.{min}
use linux_os_coding.Base.{
  ℕ, ◌+◌, ◌-◌, ◌<◌, ◌≤◌, ◌≡◌, refl, ap, sym, ◌∙◌, Option, some, none, List, [], ◌∷◌, ◌++◌, length,
  length-append, length-drop, ltb→lt, ltb-false, take-all, take-append_le, take-append_ge,
  drop-append_le, drop-append_ge, drop-all, take, drop, inl, inr, arith, Bool-cases, ltb, ◌==◌,
  append_assoc, true, false, append-nil,
}
use linux_os_coding.Base.Int.{ℤ, pos}
use linux_os_coding.Base.Text.{Text}
use linux_os_coding.Socket.{Arrival, chunk, keep, recv_loop, recv_n}

-- The bytes that the kernel holds or will hold.
abbrev pub stream : List Arrival → Text
stream [] = []
stream (chunk bytes ∷ more) = bytes ++ stream more
stream (a ∷ more) = stream more

-- The peer neither closes the stream nor breaks it.
abbrev pub Alive : List Arrival → Type 0
Alive [] = Unit
Alive (chunk bytes ∷ more) = (0 < length bytes) × Alive more
Alive (Arrival.again ∷ more) = Alive more
Alive (Arrival.failed ∷ more) = ⊥

pub stream-keep :
    (n : ℕ) (bytes : Text) (more : List Arrival)
    → n ≤ length bytes
    → stream (keep n bytes more) ≡ drop n (bytes ++ stream more)
stream-keep n bytes more h = elim (Bool-cases (ltb n (length bytes))) [
  | inl left ↦ rw left (sym (drop-append_le n bytes (stream more) h))
  | inr all ↦ rw (all, drop-append_le n bytes (stream more) h, drop-all n bytes (ground arith))
]

abbrev pub Received : ℕ → Text → Text → Option (ℤ × Text × List Arrival) → Type 0
Received want before after none = ⊥
Received want before after (some (r, got, rest)) =
    (r ≡ pos 1) × (got ≡ before ++ take want after) × (stream rest ≡ drop want after) × Alive rest

pub keep-Alive :
    (n : ℕ) (bytes : Text) (more : List Arrival) → Alive more → Alive (keep n bytes more)
keep-Alive n bytes more alive = elim (Bool-cases (ltb n (length bytes))) [
  | inl left ↦ rw left (omega (arith, length-drop n bytes, ltb→lt n (length bytes) left), alive)
  | inr all ↦ rw all alive
]

-- A whole chunk is read and more is wanted.
next-Received :
    (a b : ℕ) (before bytes after : Text) (out : Option (ℤ × Text × List Arrival))
    → a ≡ length bytes + b
    → Received b (before ++ take (length bytes) bytes) after out
    → Received a before (bytes ++ after) out
next-Received a b before bytes after none e r = r
next-Received a b before bytes after (some (r, got, rest)) e (one, data_eq, left, alive) = (
  one,
  data_eq
      ∙ ap (λ (t : Text). (before ++ t) ++ take b after)
          (take-all (length bytes) bytes (omega arith))
      ∙ append_assoc before bytes (take b after)
      ∙ ap (λ (t : Text). before ++ t)
          (sym (take-append_ge b bytes after) ∙ ap (λ (n : ℕ). take n (bytes ++ after)) (sym e)),
  left ∙ sym (drop-append_ge b bytes after) ∙ ap (λ (n : ℕ). drop n (bytes ++ after)) (sym e),
  alive,
)

abbrev Reads : List Arrival → (buflen total : ℕ) → Text → Type 0
Reads more buflen total buf =
    total ≤ buflen
    → buflen ≤ total + length (stream more)
    → Alive more
    → Received (buflen - total) buf (stream more) (recv_loop more buflen total buf)

-- Nothing more is wanted.
none_wanted :
    (more : List Arrival) (buflen total : ℕ) (buf : Text)
    → total ≤ buflen
    → ltb total buflen ≡ false
    → Alive more
    → Received (buflen - total) buf (stream more) (some (pos 1, buf, more))
none_wanted more buflen total buf le done alive =
    let z : buflen - total ≡ 0 = ground arith in rw z (refl, sym (append-nil buf), refl, alive)

chunk-Received :
    (bytes : Text) (more : List Arrival) (buflen total : ℕ) (buf : Text)
    → ((b : Text) (t : ℕ) → Reads more buflen t b)
    → Reads (chunk bytes ∷ more) buflen total buf
unfolding recv_loop
chunk-Received bytes more buflen total buf ih le enough alive =
    elim (Bool-cases (ltb total buflen)) [
      | inl left ↦
          rw (left, wants left)
            (elim (Bool-cases (ltb (total + min (length bytes) (buflen - total)) buflen)) [
              | inl short ↦
                  rw (short, whole short)
                    (next-Received (buflen - total) (buflen - (total + length bytes)) buf bytes
                      (stream more) _ (fits short)
                      (ih _ _ (room short) (rest_enough short) alive.1))
              | inr full ↦
                  rw (full, cut left full)
                    (
                      refl,
                      ap (λ (t : Text). buf ++ t)
                          (sym (
                            take-append_le (buflen - total) bytes (stream more) (below left full))),
                      stream-keep (buflen - total) bytes more (below left full),
                      keep-Alive (buflen - total) bytes more alive.1,
                    )
            ])
      | inr done ↦ rw done (none_wanted (chunk bytes ∷ more) buflen total buf le done alive)
    ]
  where
    wants : ltb total buflen ≡ true → (min (length bytes) (buflen - total) == 0) ≡ false
    wants left = ground (arith, alive.0)

    whole :
        ltb (total + min (length bytes) (buflen - total)) buflen ≡ true
        → min (length bytes) (buflen - total) ≡ length bytes
    whole short = omega (arith, ltb→lt _ _ short)

    fits :
        ltb (total + min (length bytes) (buflen - total)) buflen ≡ true
        → buflen - total ≡ length bytes + (buflen - (total + length bytes))
    fits short = omega (arith, ltb→lt _ _ short)

    room :
        ltb (total + min (length bytes) (buflen - total)) buflen ≡ true
        → total + length bytes ≤ buflen
    room short = omega (arith, ltb→lt _ _ short)

    rest_enough :
        ltb (total + min (length bytes) (buflen - total)) buflen ≡ true
        → buflen ≤ total + length bytes + length (stream more)
    rest_enough short = omega (arith, length-append bytes (stream more))

    below :
        ltb total buflen ≡ true
        → ltb (total + min (length bytes) (buflen - total)) buflen ≡ false
        → buflen - total ≤ length bytes
    below left full = omega (arith, ltb→lt _ _ left, ltb-false _ _ full)

    cut :
        ltb total buflen ≡ true
        → ltb (total + min (length bytes) (buflen - total)) buflen ≡ false
        → min (length bytes) (buflen - total) ≡ buflen - total
    cut left full = omega (arith, ltb→lt _ _ left, ltb-false _ _ full)

loop-Received : (more : List Arrival) (buflen total : ℕ) (buf : Text) → Reads more buflen total buf
unfolding recv_loop
loop-Received [] buflen total buf le enough alive =
    let done : ltb total buflen ≡ false = ground arith in
    rw done (none_wanted [] buflen total buf le done tt)
loop-Received (Arrival.failed ∷ more) buflen total buf le enough alive = absurd alive
loop-Received (Arrival.again ∷ more) buflen total buf le enough alive =
    elim (Bool-cases (ltb total buflen)) [
      | inl left ↦ rw left (loop-Received more buflen total buf le enough alive)
      | inr done ↦ rw done (none_wanted (Arrival.again ∷ more) buflen total buf le done alive)
    ]
loop-Received (chunk bytes ∷ more) buflen total buf le enough alive =
    chunk-Received bytes more buflen total buf (λ b t. loop-Received more buflen t b) le enough
      alive

-- On a stream that brings `buflen` bytes or more and that the peer neither closes nor breaks,
-- however it is cut into chunks and whatever interrupts the reads: `recv_n` returns 1 with the first
-- `buflen` bytes and leaves exactly the others, on such a stream, for the next call.
pub recv_n-Received :
    (more : List Arrival) (buflen : ℕ)
    → buflen ≤ length (stream more)
    → Alive more
    → Received buflen [] (stream more) (recv_n more buflen)
unfolding recv_n
recv_n-Received more buflen enough alive =
    let whole : buflen - 0 ≡ buflen = omega arith in
    rw whole at (loop-Received more buflen 0 [] (omega arith) (omega arith) alive)
