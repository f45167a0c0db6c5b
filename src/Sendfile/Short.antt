-- ===== src/Sendfile/Short.antt =====
-- What the client has of a file of which `sendfile` has moved a part.
use Prim.Native.Nat.{min}
use linux_os_coding.Base.{
  ℕ, zero, suc, ◌+◌, ◌-◌, ◌≤◌, ◌<◌, ◌≡◌, refl, sym, ap, ◌∙◌, Bool, true, false, Bool-cases, inl,
  inr, ltb, ◌==◌, if◌then◌else◌, Option, none, some, List, [], ◌∷◌, ◌++◌, length, length-append,
  length-take, take, drop, take-append-drop, take-append_le, length-drop, arith,
}
use linux_os_coding.Base.Int.{ℤ, pos}
use linux_os_coding.Base.Text.{Text}
use linux_os_coding.Socket.{Arrival, chunk, keep}
use linux_os_coding.Socket.Recv.{stream, Alive, stream-keep, keep-Alive}
use linux_os_coding.Train.Ended.{keep-append}
use linux_os_coding.Sendfile.{send_content, recv_file}

-- So many calls of `recv` may come before the end: one for each interruption and each byte.
abbrev pub calls : List Arrival → ℕ
calls [] = 0
calls (chunk bytes ∷ more) = length bytes + calls more
calls (Arrival.again ∷ more) = suc (calls more)
calls (Arrival.failed ∷ more) = suc (calls more)

-- All of `bytes` is written, and 1 is returned if it is what is missing, else 0.
abbrev pub Written : Text → (missing : ℕ) → Option (ℤ × Text × List Arrival) → Type 0
Written bytes missing none = ⊥
Written bytes missing (some (r, written, left)) =
    (written ≡ bytes) × (r ≡ (if ltb (length bytes) missing then pos 0 else pos 1))

calls-keep :
    (n : ℕ) (bytes : Text) (more : List Arrival)
    → 0 < n
    → n ≤ length bytes
    → calls (keep n bytes more) < length bytes + calls more
calls-keep n bytes more h le = elim (Bool-cases (ltb n (length bytes))) [
  | inl left ↦ rw left (omega (arith, length-drop n bytes))
  | inr all ↦ rw all (omega arith)
]

-- A call that has brought `piece`.
one_call :
    (piece bytes : Text) (missing missing' : ℕ) (out : Option (ℤ × Text × List Arrival))
    → missing ≡ length piece + missing'
    → Written bytes missing' out
    → Written
        (piece ++ bytes)
        missing
        (elim out [ none ↦ none | some (r, written, left) ↦ some (r, piece ++ written, left) ])
one_call piece bytes missing missing' none e w = absurd w
one_call piece bytes missing missing' (some (r, written, left)) e (same, result) = (
  ap (λ (t : Text). piece ++ t) same,
  result ∙ ap (λ (b : Bool). if b then pos 0 else pos 1) shorter,
)
  where
    shorter : ltb (length bytes) missing' ≡ ltb (length (piece ++ bytes)) missing
    shorter = ground (arith, length-append piece bytes, e)

no_bytes : (t : Text) → length t ≡ 0 → t ≡ []
no_bytes [] h = refl
no_bytes (c ∷ t) h = absurd (omega arith)

module _ (buflen size_file : ℕ) (room : 0 < buflen) (tail : List Arrival) where
  loop-Written :
      (fuel : ℕ) (a : List Arrival) (total : ℕ)
      → Alive a
      → total + length (stream a) ≤ size_file
      → calls a < fuel
      → Written
          (stream a)
          (size_file - total)
          (recv_file fuel (a ++ chunk [] ∷ tail) buflen size_file total)
  unfolding recv_file
  loop-Written zero a total alive le f = absurd (omega arith)
  loop-Written (suc fuel) [] total alive le f = elim (Bool-cases (ltb total size_file)) [
    | inl left ↦
        let none_there : (min 0 buflen == 0) ≡ true = ground arith in
        let short : ltb 0 (size_file - total) ≡ true = ground arith in
        rw (left, none_there, short) (refl, refl)
    | inr whole ↦
        let short : ltb 0 (size_file - total) ≡ false = ground arith in
        rw (whole, short) (refl, refl)
  ]
  loop-Written (suc fuel) (Arrival.again ∷ more) total alive le f =
      elim (Bool-cases (ltb total size_file)) [
        | inl left ↦ rw left (loop-Written fuel more total alive le (omega arith))
        | inr whole ↦
            let nothing : stream more ≡ [] = no_bytes (stream more) (ground arith) in
            let short : ltb 0 (size_file - total) ≡ false = ground arith in
            rw whole (rw nothing (rw short (refl, refl)))
      ]
  loop-Written (suc fuel) (Arrival.failed ∷ more) total alive le f = absurd alive
  loop-Written (suc fuel) (chunk bytes ∷ more) total (h, alive) le f =
      let n = min (length bytes) buflen in
      let count = length-append bytes (stream more) in
      let left : ltb total size_file ≡ true = ground (arith, count) in
      let some_bytes : (n == 0) ≡ false = ground arith in
      let after : stream (keep n bytes more) ≡ drop n (bytes ++ stream more) =
        stream-keep n bytes more (omega arith) in
      let split : take n bytes ++ stream (keep n bytes more) ≡ bytes ++ stream more =
        ap (λ (t : Text). take n bytes ++ t) after
        ∙ ap (λ (t : Text). t ++ drop n (bytes ++ stream more))
            (sym (take-append_le n bytes (stream more) (omega arith)))
        ∙ take-append-drop n (bytes ++ stream more) in
      let piece : length (take n bytes) ≡ n = omega (arith, length-take n bytes) in
      let total_length = ap length split in
      let sum = length-append (take n bytes) (stream (keep n bytes more)) in
      let rest : Written (stream (keep n bytes more)) (size_file - (total + n))
          (recv_file fuel (keep n bytes more ++ chunk [] ∷ tail) buflen size_file (total + n)) =
        loop-Written fuel (keep n bytes more) (total + n) (keep-Alive n bytes more alive)
          (omega (arith, le, count, total_length, sum, piece))
          (omega (arith, f, calls-keep n bytes more (omega arith) (omega arith))) in
      rw (left, some_bytes, keep-append n bytes more (chunk [] ∷ tail))
        (rw split at (
          one_call (take n bytes) (stream (keep n bytes more)) (size_file - total)
            (size_file - (total + n)) _ (omega (arith, le, count, total_length, sum, piece)) rest))

  -- `sendfile` moves up to `most` bytes of the file in its one call, and the server closes. However what has
  -- been sent is cut, and whatever interrupts the calls: the client writes exactly those bytes,
  -- a beginning of the file, and returns 1 if they are the whole file, else 0. `tran_file` returns 0 in
  -- both cases.
  pub recv_file-sent :
      (fuel : ℕ) (content : Text) (most : ℕ) (a : List Arrival)
      → length content ≡ size_file
      → Alive a
      → stream a ≡ take (min most size_file) content
      → calls a < fuel
      → (send_content content size_file (some most) ≡ (pos 0, take (min most size_file) content))
        × Written
            (take (min most size_file) content)
            size_file
            (recv_file fuel (a ++ chunk [] ∷ tail) buflen size_file 0)
  unfolding send_content
  recv_file-sent fuel content most a whole alive e f =
      let none_yet : size_file - 0 ≡ size_file = omega arith in
      (
        refl,
        rw e at (
            rw none_yet at (
              loop-Written fuel a 0 alive
                (omega (arith, whole, ap length e, length-take (min most size_file) content)) f)),
      )
