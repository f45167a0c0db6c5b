-- ===== src/Train/Cut.antt =====
-- The connection ends before the file does.
use linux_os_coding.Base.{
  ℕ, zero, suc, ◌+◌, ◌-◌, ◌≤◌, ◌<◌, ◌≡◌, refl, sym, ap, ◌∙◌, ltb, Bool-cases, inl, inr, List, [],
  ◌∷◌, ◌++◌, length, length-append, length-take, take, drop, take-append_ge, take-all, arith,
  lt→ltb, if◌then◌else◌, append-nil,
}
use linux_os_coding.Base.Int.{pos}
use linux_os_coding.Base.Text.{Text}
use linux_os_coding.Base.Bytes.{int_bytes, length-int_bytes, int_value-int_bytes}
use linux_os_coding.Socket.{Arrival, chunk}
use linux_os_coding.Socket.Recv.{stream}
use linux_os_coding.Train.{done, train_size, download}
use linux_os_coding.Train.Sent.{frame, frames, Pieces}
use linux_os_coding.Train.Received.{Clean, over}
use linux_os_coding.Train.Whole.{concat, recv_n-Next, recv_n-Header, take_first, frame_first, small}
use linux_os_coding.Train.Ended.{recv_n-Extends, recv_n-Ended}

-- The pieces whose frames are in the first `k` bytes.
abbrev pub arrived : (k : ℕ) → List Text → List Text
arrived k [] = []
arrived k (p ∷ ps) =
    let rest = arrived (k - length (frame p)) ps in
    if ltb k (length (frame p)) then [] else p ∷ rest

take_past :
    (k : ℕ) (xs ys : Text) → length xs ≤ k → take k (xs ++ ys) ≡ xs ++ take (k - length xs) ys
take_past k xs ys le =
    ap (λ (n : ℕ). take n (xs ++ ys)) (rest_of k (length xs) le)
    ∙ take-append_ge (k - length xs) xs ys
  where
    rest_of : (k n : ℕ) → n ≤ k → k ≡ n + (k - n)
    rest_of k n le = omega arith

-- Two lengths that `omega` needs.
length-header : (n : ℕ) → length (int_bytes (pos n)) ≡ 4
length-header n = length-int_bytes (pos n)

length-frame : (p : Text) → length (frame p) ≡ 4 + length p
length-frame p =
    omega (arith, length-header (length p), length-append (int_bytes (pos (length p))) p)

module _ (tail : List Arrival) where
  -- The first read of a round meets the end.
  no_header :
      (fuel : ℕ) (a : List Arrival) (len buf : Text)
      → Clean a
      → length (stream a) < 4
      → download (suc fuel) (a ++ chunk [] ∷ tail) len buf ≡ done []
  unfolding download
  no_header fuel a len buf c short =
      let (memory, rest, out) = recv_n-Ended 4 tail a 4 len c short (omega arith) in rw out refl

  -- A round in which the length of a piece arrives.
  module _ (fuel : ℕ) (a : List Arrival) (p w len buf : Text) (c : Clean a) (four : length len ≡ 4)
      (some_bytes : 0 < length p) (fits : length p ≤ train_size)
      (e : stream a ≡ int_bytes (pos (length p)) ++ w) where
    no_piece : length w < length p → download (suc fuel) (a ++ chunk [] ∷ tail) len buf ≡ done []
    unfolding download
    no_piece short =
        let (a1, out1, left1, clean1) = recv_n-Header a (length p) w len c e four in
        let (memory, rest, out2) =
          recv_n-Ended train_size tail a1 (length p) buf clean1 (omega (arith, ap length left1))
            fits in
        rw
          (
            recv_n-Extends 4 (chunk [] ∷ tail) a a1 4 len (int_bytes (pos (length p))) (pos 0) c
                (omega arith) out1,
            int_value-int_bytes (length p) (small (length p) fits),
            lt→ltb 0 (length p) some_bytes,
            out2,
          )
          refl

    one_piece :
        (v content : Text)
        → w ≡ p ++ v
        → ((a2 : List Arrival)
            → Clean a2
            → stream a2 ≡ v
            → download fuel (a2 ++ chunk [] ∷ tail) (int_bytes (pos (length p))) (over buf p)
              ≡ done content)
        → download (suc fuel) (a ++ chunk [] ∷ tail) len buf ≡ done (p ++ content)
    unfolding download
    one_piece v content ev next =
        let (a1, out1, left1, clean1) = recv_n-Header a (length p) w len c e four in
        let (a2, out2, left2, clean2) =
          recv_n-Next train_size a1 p v buf clean1 (left1 ∙ ev) fits in
        rw
          (
            recv_n-Extends 4 (chunk [] ∷ tail) a a1 4 len (int_bytes (pos (length p))) (pos 0) c
                (omega arith) out1,
            int_value-int_bytes (length p) (small (length p) fits),
            lt→ltb 0 (length p) some_bytes,
            recv_n-Extends train_size (chunk [] ∷ tail) a1 a2 (length p) buf (over buf p) (pos 0)
                clean1 some_bytes out2,
            next a2 clean2 left2,
            take_first p (drop (length p) buf),
          )
          refl

header_cut :
    (k : ℕ) (p v : Text) (a : List Arrival)
    → stream a ≡ take k (frame p ++ v)
    → 4 ≤ k
    → stream a ≡ int_bytes (pos (length p)) ++ take (k - 4) (p ++ v)
header_cut k p v a e le =
    let h = int_bytes (pos (length p)) in
    e
    ∙ ap (λ (t : Text). take k t) (frame_first p v)
    ∙ take_past k h (p ++ v) (omega (arith, le, length-header (length p)))
    ∙ ap (λ (n : ℕ). h ++ take (k - n) (p ++ v)) (length-header (length p))

-- There is no piece left.
only_end :
    (k fuel : ℕ) (a tail : List Arrival) (len buf : Text)
    → Clean a
    → stream a ≡ take k (int_bytes (pos 0))
    → length len ≡ 4
    → download (suc fuel) (a ++ chunk [] ∷ tail) len buf ≡ done []
unfolding download
only_end k fuel a tail len buf c e four = elim (Bool-cases (ltb k 4)) [
  | inl none_there ↦
      no_header tail fuel a len buf c
        (ground (arith, ap length e, length-take k (int_bytes (pos 0))))
  | inr some_there ↦
      let all : take k (int_bytes (pos 0)) ≡ int_bytes (pos 0) =
        take-all k (int_bytes (pos 0)) (ground (arith, length-header 0)) in
      let (a1, out1, left1, clean1) =
        recv_n-Header a 0 [] len c (e ∙ all ∙ sym (append-nil (int_bytes (pos 0)))) four in
      rw
        (
          recv_n-Extends 4 (chunk [] ∷ tail) a a1 4 len (int_bytes (pos 0)) (pos 0) c (omega arith)
              out1,
          int_value-int_bytes 0 (omega arith),
        )
        refl
]

-- The client's loop behind name and size, on a connection that the server or the net ends after `k` bytes
-- of the frames of the pieces, however they are cut, with a round of fuel more than there are
-- pieces: the client writes exactly the pieces whose frames have come whole, a beginning of the file. It
-- ends in the same way as with the whole file.
pub download-arrived :
    (fuel k : ℕ) (ps : List Text) (a tail : List Arrival) (len buf : Text)
    → length ps < fuel
    → Pieces ps
    → Clean a
    → stream a ≡ take k (frames ps)
    → length len ≡ 4
    → download fuel (a ++ chunk [] ∷ tail) len buf ≡ done (concat (arrived k ps))
download-arrived zero k ps a tail len buf f h c e four = absurd (omega arith)
download-arrived (suc fuel) k [] a tail len buf f h c e four =
    only_end k fuel a tail len buf c e four
download-arrived (suc fuel) k (p ∷ ps) a tail len buf f (some_bytes, fits, h) c e four =
    let size = length-frame p in
    let w = p ++ frames ps in
    elim (Bool-cases (ltb k (length (frame p)))) [
      | inl short ↦ rw short (elim (Bool-cases (ltb k 4)) [
        | inl none_there ↦
            no_header tail fuel a len buf c
              (ground (arith, ap length e, length-take k (frames (p ∷ ps))))
        | inr some_there ↦
            no_piece tail fuel a p (take (k - 4) w) len buf c four some_bytes fits
              (header_cut k p (frames ps) a e (ground arith))
              (ground (arith, size, length-take (k - 4) w))
      ])
      | inr whole ↦ rw whole (
          one_piece tail fuel a p (p ++ take (k - length (frame p)) (frames ps)) len buf c four
            some_bytes fits
            (e
              ∙ take_past k (frame p) (frames ps) (ground arith)
              ∙ frame_first p (take (k - length (frame p)) (frames ps)))
            (take (k - length (frame p)) (frames ps)) (concat (arrived (k - length (frame p)) ps))
            refl
            (λ a2 c2 e2.
              download-arrived fuel (k - length (frame p)) ps a2 tail (int_bytes (pos (length p)))
                (over buf p) (omega arith) h c2 e2 (length-header (length p))))
    ]
