-- ===== src/Ls/Mode.antt =====
-- The letters that `getMode` writes.
use linux_os_coding.Base.{
  ℕ, ◌+◌, ◌*◌, ◌/◌, ◌%◌, ◌≡◌, refl, false, [], ◌∷◌, length, drop, arith, ◌==◌, if◌then◌else◌,
}
use linux_os_coding.Base.Text.{Text}
use linux_os_coding.Ls.{get_mode, mode_loop, mode_bit}

-- The number whose binary digits are 0 for each `-` and 1 for each other letter.
unfoldable pub read_mode : (seen : ℕ) → Text → ℕ
read_mode seen [] = seen
read_mode seen (c ∷ s) = read_mode (2 * seen + (if c == b'-' then 0 else 1)) s

bit :
    (root letter m : ℕ)
    → (letter == b'-') ≡ false
    → (if mode_bit root letter m == b'-' then 0 else 1) ≡ m / root % 2
bit root letter m h = ground arith

nine_bits :
    (m : ℕ)
    → 2
          * (2
                * (2
                      * (2
                            * (2
                                  * (2
                                        * (2 * (2 * (2 * 0 + m / 256 % 2) + m / 128 % 2)
                                            + m / 64 % 2)
                                      + m / 32 % 2)
                                + m / 16 % 2)
                          + m / 8 % 2)
                    + m / 4 % 2)
              + m / 2 % 2)
        + m / 1 % 2
      ≡ m % 512
nine_bits m = omega arith

-- The nine letters behind the first that `getMode` writes are the permission bits: read from the left
-- as binary digits they give back `st_mode % 512`; and ten bytes are written.
pub get_mode-read_mode :
    (st_mode : ℕ)
    → (read_mode 0 (drop 1 (get_mode st_mode)) ≡ st_mode % 512) × (length (get_mode st_mode) ≡ 10)
unfolding get_mode mode_loop read_mode
get_mode-read_mode m = (
  rw
      (
        bit 256 b'r' m refl,
        bit 128 b'w' m refl,
        bit 64 b'x' m refl,
        bit 32 b'r' m refl,
        bit 16 b'w' m refl,
        bit 8 b'x' m refl,
        bit 4 b'r' m refl,
        bit 2 b'w' m refl,
        bit 1 b'x' m refl,
      )
      (nine_bits m),
  refl,
)
