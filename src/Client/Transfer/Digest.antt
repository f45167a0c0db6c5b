-- ===== src/Client/Transfer/Digest.antt =====
-- What `get_md5` computes.
use linux_os_coding.Base.{
  ℕ, zero, suc, ◌*◌, ◌<◌, ◌≡◌, true, ok, fault, Option, some, List, [], ◌∷◌, ◌++◌, append_assoc,
  ◌⊎◌, length-drop, take-all, length, take, drop, length-take, take-append-drop, ltb, arith, inl,
  inr, Bool-cases, Option-cases, ltb-false, ltb→lt,
}
use linux_os_coding.Base.Int.{pos, negsuc}
use linux_os_coding.Base.Text.{Text, fill-ok, fill-fault}
use linux_os_coding.Client.Transfer.{hash_loop, hex, get_md5, read_max_size}

-- What `read` returns on a file that is read to its end: full pieces, then a shorter one.
unfoldable pub full_reads : ℕ → Text → List (Option Text)
full_reads zero bytes = []
full_reads (suc k) bytes = some (take read_max_size bytes) ∷ full_reads k (drop read_max_size bytes)

length-hex : (bytes : Text) → length (hex bytes) ≡ 2 * length bytes
unfolding hex
length-hex [] = omega arith
length-hex (b ∷ bytes) = omega (arith, length-hex bytes)

hash-full :
    (fuel : ℕ) (bytes fed : Text)
    → length bytes < read_max_size * fuel
    → hash_loop (full_reads fuel bytes) fed ≡ some (fed ++ bytes)
unfolding hash_loop full_reads
hash-full zero bytes fed h = ground arith
hash-full (suc k) bytes fed h =
    elim (Bool-cases (ltb (length (take read_max_size bytes)) read_max_size)) [
      | inl e ↦ rw (
        e,
        take-all read_max_size bytes (omega (arith, length-take read_max_size bytes, ltb→lt _ _ e)),
        hash_loop,
      )
      | inr e ↦ rw (
        e,
        hash-full k (drop read_max_size bytes) (fed ++ take read_max_size bytes) (
            omega (
              arith,
              length-drop read_max_size bytes,
              length-take read_max_size bytes,
              ltb-false _ _ e,
            )),
        append_assoc fed (take read_max_size bytes) (drop read_max_size bytes),
        take-append-drop read_max_size bytes,
        hash_loop,
      )
    ]

-- Where `read` brings the whole file in pieces of 1024 bytes and a shorter one at the end, which may
-- be empty, and the digest has 16 bytes, `get_md5` into an array of 33 bytes or more returns 0 and
-- the digest of the whole file in hexadecimal.
pub get_md5-whole :
    (md5 : Text → Text) (room fuel : ℕ) (bytes : Text)
    → length bytes < read_max_size * fuel
    → length (md5 bytes) ≡ 16
    → 32 < room
    → get_md5 md5 room true (full_reads fuel bytes) ≡ ok (pos 0, hex (md5 bytes))
unfolding get_md5
get_md5-whole md5 room fuel bytes h digest big = rw (
  hash-full fuel bytes [] h,
  fill-ok room (hex (md5 bytes)) (omega (arith, length-hex (md5 bytes))),
  get_md5,
)

-- Into 32 bytes, the size of the array in `do_user_task`, the string of a digest of 16 bytes does
-- not fit: whatever `read` brings, `get_md5` returns -1 or writes behind the array.
pub get_md5-small :
    (md5 : Text → Text) (reads : List (Option Text))
    → ((fed : Text) → length (md5 fed) ≡ 16)
    → (get_md5 md5 32 true reads ≡ fault) ⊎ (get_md5 md5 32 true reads ≡ ok (negsuc 0, []))
unfolding get_md5
get_md5-small md5 reads digest = elim (Option-cases (hash_loop reads [])) [
  | inl e ↦ inr (rw (e, get_md5))
  | inr (fed, e) ↦ inl (
      rw (
        e,
        fill-fault 32 (hex (md5 fed)) (omega (arith, length-hex (md5 fed), digest fed)),
        get_md5,
      ))
]
