-- ===== src/Server/Transfer/Resume.antt =====
-- What a transfer leaves in the file, and that a broken transfer can be taken up again.
use linux_os_coding.Base.{
  ℕ, suc, ◌+◌, ◌<◌, ◌≤◌, ◌≡◌, refl, ap, sym, ◌∙◌, true, false, some, [], ◌∷◌, ◌++◌, length,
  length-append, length-drop, take, drop, append_assoc, append-nil, take-all, take-append-drop,
  is_empty, arith, if◌then◌else◌, Bool-cases, inl, inr,
}
use native.Mathlib.Decide.{dec_lt}
use linux_os_coding.Base.Int.{ℤ, pos, ltb_ℤ}
use linux_os_coding.Base.Text.{Text, str_eq, str_eq_iff}
use linux_os_coding.Socket.{Arrival, chunk}
use linux_os_coding.Wire.{Link, Files, append_file, later}
use linux_os_coding.Server.Transfer.{after_recv, recv_loop}

-- Within `k` calls of `recv` exactly `bytes` arrive, in pieces of 1000 at most, with interruptions.
pub data Brings : ℕ → (ℕ → Arrival) → Text → Type 0 where
  all : {k : ℕ} {cs : ℕ → Arrival} → Brings k cs []
  pause :
      {k : ℕ} {cs : ℕ → Arrival} {bytes : Text}
      → cs 0 ≡ Arrival.again
      → Brings k (later cs) bytes
      → Brings (suc k) cs bytes
  piece :
      {k : ℕ} {cs : ℕ → Arrival} {bytes : Text} (c rest : Text)
      → cs 0 ≡ chunk c
      → 0 < length c
      → length c ≤ 1000
      → bytes ≡ c ++ rest
      → Brings k (later cs) rest
      → Brings (suc k) cs bytes

-- The file at `path` holds `old` and the bytes, and no other file differs.
pub record Grown (fs fs' : Files) (path old bytes : Text) : Type 0 where
  pub grown : fs'.content path ≡ some (old ++ bytes)
  pub others : (p : Text) → str_eq p path ≡ false → fs'.content p ≡ fs.content p

abbrev Resumed : ℕ → Text → (total : ℕ) → ℤ → Files → Link → Text → Text → Type 0
Resumed k path total file_size fs l old bytes =
    (fs' : Files) × (l' : Link) × (recv_loop k true path total file_size fs l
      ≡ some (pos 1, fs', l'))
    × Grown fs fs' path old bytes

append-grows :
    (fs : Files) (path old c : Text)
    → fs.content path ≡ some old
    → Grown fs (append_file true fs path c) path old c
unfolding append_file
append-grows fs path old c e =
    rw (e, append_file)
      (record { grown = rw ((str_eq_iff path path).1 refl) refl; others = λ p ne. rw ne refl })

module _ (k : ℕ) (path : Text) (total n : ℕ) (fs : Files) (l : Link) where
  at_end : n ≤ total → recv_loop (suc k) true path total (pos n) fs l ≡ some (pos 1, fs, l)
  unfolding recv_loop
  at_end h = let e : ltb_ℤ (pos total) (pos n) ≡ false = ground arith in rw (e, recv_loop)

  paused :
      total < n
      → l.chunks 0 ≡ Arrival.again
      → recv_loop (suc k) true path total (pos n) fs l
        ≡ recv_loop k true path total (pos n) fs (after_recv l)
  unfolding recv_loop
  paused h a = let e : ltb_ℤ (pos total) (pos n) ≡ true = ground arith in rw (e, recv_loop, a)

  pieced :
      (c : Text)
      → total < n
      → l.chunks 0 ≡ chunk c
      → 0 < length c
      → length c ≤ 1000
      → recv_loop (suc k) true path total (pos n) fs l
        ≡ recv_loop k true path
            (total + length c)
            (pos n)
            (append_file true fs path c)
            (after_recv l)
  unfolding recv_loop
  pieced c h a more small =
      let e : ltb_ℤ (pos total) (pos n) ≡ true = ground arith in
      let bytes : is_empty c ≡ false = not_empty c more in
      rw (e, recv_loop, a, bytes, take-all 1000 c small)
    where
      not_empty : (t : Text) → 0 < length t → is_empty t ≡ false
      not_empty [] h' = absurd (omega arith)
      not_empty (x ∷ t) h' = refl

no_bytes : (t : Text) → length t ≡ 0 → t ≡ []
no_bytes [] e = refl
no_bytes (x ∷ t) e = absurd (omega arith)

-- The loop ends at once where no byte is missing.
loop-end :
    (k : ℕ) (path : Text) (total n : ℕ) (fs : Files) (l : Link) (old bytes : Text)
    → fs.content path ≡ some old
    → n ≡ total + length bytes
    → length bytes ≡ 0
    → Resumed (suc k) path total (pos n) fs l old bytes
loop-end k path total n fs l old bytes e size none_left = (
  fs,
  l,
  at_end k path total n fs l (omega arith),
  record { grown = rw (no_bytes bytes none_left, append-nil old) e; others = λ p ne. refl },
)

recv_loop-Grown :
    (k : ℕ) (path : Text) (total n : ℕ) (fs : Files) (l : Link) (old bytes : Text)
    → fs.content path ≡ some old
    → n ≡ total + length bytes
    → Brings k l.chunks bytes
    → Resumed (suc k) path total (pos n) fs l old bytes
recv_loop-Grown k path total n fs l old bytes e size all =
    loop-end k path total n fs l old [] e size refl
recv_loop-Grown (suc k) path total n fs l old bytes e size (pause at b) =
    elim (dec_lt 0 (length bytes)) [
      | no h ↦ loop-end (suc k) path total n fs l old bytes e size (omega arith)
      | yes h ↦
          let (fs', l', run, g) =
            recv_loop-Grown k path total n fs (after_recv l) old bytes e size b in
          (fs', l', paused (suc k) path total n fs l (omega arith) at ∙ run, g)
    ]
recv_loop-Grown (suc k) path total n fs l old bytes e size
      (piece c rest at some_bytes small split b) =
    let g = append-grows fs path old c e in
    let (fs', l', run, g') =
      recv_loop-Grown k path (total + length c) n (append_file true fs path c) (after_recv l)
        (old ++ c) rest g.grown (parts c rest split) b in
    (
      fs',
      l',
      pieced (suc k) path total n fs l c (room c rest split some_bytes) at some_bytes small ∙ run,
      record {
        grown =
            g'.grown ∙ ap (λ t. some t) (append_assoc old c rest ∙ ap (λ t. old ++ t) (sym split));
        others = λ p ne. g'.others p ne ∙ g.others p ne;
      },
    )
  where
    lengths : (c rest : Text) → bytes ≡ c ++ rest → length bytes ≡ length c + length rest
    lengths c rest split = ap length split ∙ length-append c rest

    parts : (c rest : Text) → bytes ≡ c ++ rest → n ≡ total + length c + length rest
    parts c rest split = omega (arith, size, lengths c rest split)

    room : (c rest : Text) → bytes ≡ c ++ rest → 0 < length c → total < n
    room c rest split h = omega (arith, size, lengths c rest split)

-- Where the file already holds the first bytes of what the peer has, and the peer sends exactly the
-- others (in pieces of 1000 bytes at most, with any interruptions), the loop of `recv_file` returns 1
-- and the file is the peer's, however often the transfer was broken off before. No other file is
-- touched. One round more than there are calls of `recv` is enough fuel.
pub recv_loop-resumes :
    (k sent : ℕ) (path : Text) (fs : Files) (l : Link) (whole : Text)
    → fs.content path ≡ some (take sent whole)
    → sent ≤ length whole
    → Brings k l.chunks (drop sent whole)
    → (fs' : Files) × (l' : Link) × (recv_loop (suc k) true path sent (pos (length whole)) fs l
        ≡ some (pos 1, fs', l'))
      × (fs'.content path ≡ some whole)
      × ((p : Text) → fs'.content p ≡ (if str_eq p path then some whole else fs.content p))
recv_loop-resumes k sent path fs l whole e le b =
    let (fs', l', run, g) =
      recv_loop-Grown k path sent (length whole) fs l (take sent whole) (drop sent whole) e
        (omega (arith, length-drop sent whole)) b in
    let done = g.grown ∙ ap (λ t. some t) (take-append-drop sent whole) in
    (
      fs',
      l',
      run,
      done,
      λ p. elim (Bool-cases (str_eq p path)) [
        | inl same ↦ rw same (ap fs'.content ((str_eq_iff p path).0 same) ∙ done)
        | inr other ↦ rw other (g.others p other)
      ],
    )
