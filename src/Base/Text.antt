-- ===== src/Base/Text.antt =====
-- C strings as lists of bytes: what a `char` buffer holds up to its NUL. The functions of
-- <string.h>, <stdlib.h> and <stdio.h> that the programs call, with the buffer's capacity where one
-- is written to.
use Prim.Native.Nat.{ℕ, zero, suc, ◌+◌, ◌-◌, ◌*◌, ◌/◌, ◌%◌, ◌^◌, ◌≤◌, ◌<◌}
use Prim.Native.Char.{code}
use Prim.Native.String.{String}
use mathlib.Core.Path.{◌≡◌, refl}
use mathlib.Core.Logic.{◌↔◌}
use mathlib.Core.Bool.{Bool, true, false, ◌&&◌, ◌||◌}
use mathlib.Core.List.{List, [], ◌∷◌}
use native.Mathlib.Omega.{arith}
use linux_os_coding.Base.Tests.{ltb, leb, ◌==◌, if◌then◌else◌, lt→ltb}
use linux_os_coding.Base.Lists.{length}
use linux_os_coding.Base.Outcome.{Run, ok, fault, ◌>>=◌, ◌>>◌, require}
use linux_os_coding.Base.Int.{ℤ, pos, negsuc}

abbrev pub Text : Type 0
Text = List ℕ

-- The bytes of an ASCII literal.
abbrev pub codes : String → Text
codes String.[] = []
codes (String.◌∷◌ c s) = code c ∷ codes s

-- `strcmp(s, t) == 0`
unfoldable pub str_eq : Text → Text → Bool
str_eq [] [] = true
str_eq [] (d ∷ t) = false
str_eq (c ∷ s) [] = false
str_eq (c ∷ s) (d ∷ t) = c == d && str_eq s t

pub str_eq_iff : (s t : Text) → (str_eq s t ≡ true) ↔ (s ≡ t)
unfolding str_eq
str_eq_iff [] [] = ground arith
str_eq_iff [] (d ∷ t) = ground arith
str_eq_iff (c ∷ s) [] = ground arith
str_eq_iff (c ∷ s) (d ∷ t) = ground (arith, str_eq_iff s t)

-- `strcpy`, `sprintf` or `strcat` that leaves `s` in a buffer of `cap` bytes: `s` and its NUL fit,
-- or memory behind the buffer is overwritten.
unfoldable pub fill : ℕ → Text → Run Text
fill cap s = if ltb (length s) cap then ok s else fault

pub fill-ok : (cap : ℕ) (s : Text) → length s < cap → fill cap s ≡ ok s
unfolding fill
fill-ok cap s h = rw (lt→ltb _ _ h)

pub fill-fault : (cap : ℕ) (s : Text) → cap ≤ length s → fill cap s ≡ fault
unfolding fill
fill-fault cap s h = ground arith

-- What a read at an index finds: the buffer is zeroed before it is filled.
abbrev pub at : Text → ℕ → ℕ
at [] i = 0
at (c ∷ s) zero = c
at (c ∷ s) (suc i) = at s i

-- A `char` that ends a line: the byte 255 is read as EOF too.
abbrev pub ends_line : ℕ → Bool
ends_line c = c == b'\n' || c == 255

-- The string that `%s` prints from an array: without a NUL it reads behind it.
unfoldable pub c_string : Text → Run Text
c_string [] = fault
c_string (c ∷ array) = elim (c == 0) [ true ↦ ok [] | false ↦ c_string array >>= λ s. ok (c ∷ s) ]

-- `%d` and `%ld`. A number of `f` digits at most needs fuel `f`; 20 are enough for 64 bits.
print_digits : ℕ → ℕ → Text → Text
print_digits zero n out = out
print_digits (suc f) n out =
    let rest = print_digits f (n / 10) ((b'0' + n % 10) ∷ out) in
    if n / 10 == 0 then (b'0' + n % 10) ∷ out else rest

unfoldable pub print_int : ℤ → Text
unfolding print_digits
print_int (pos n) = print_digits 20 n []
print_int (negsuc n) = b'-' ∷ print_digits 20 (n + 1) []

-- `atoi`: white space, a sign, digits up to the first other byte; a value past `int` is undefined.
abbrev is_digit : ℕ → Bool
is_digit c = leb b'0' c && leb c b'9'

abbrev is_space : ℕ → Bool
is_space c = c == b' ' || (leb 9 c && leb c 13)

read_digits : ℕ → Text → ℕ
read_digits n [] = n
read_digits n (c ∷ s) = elim (is_digit c) [ true ↦ read_digits (n * 10 + (c - b'0')) s | false ↦ n ]

read_signed : Text → ℤ
read_signed [] = pos 0
read_signed (c ∷ s) =
    if c == b'-'
    then elim (read_digits 0 s) [ zero ↦ pos 0 | suc n ↦ negsuc n ]
    else if c == b'+'
    then pos (read_digits 0 s)
    else pos (read_digits 0 (c ∷ s))

skip_spaces : Text → Text
skip_spaces [] = []
skip_spaces (c ∷ s) = if is_space c then skip_spaces s else c ∷ s

abbrev fits_int : ℤ → Bool
fits_int (pos n) = ltb n (2 ^ 31)
fits_int (negsuc n) = ltb n (2 ^ 31)

unfoldable pub atoi : Text → Run ℤ
unfolding read_digits read_signed skip_spaces
atoi s = let n = read_signed (skip_spaces s) in do require (fits_int n); ok n

print_then_read :
    (print_int (pos 1204) ≡ codes "1204")
    × (print_int (negsuc 6) ≡ codes "-7")
    × (atoi (codes " -12x") ≡ ok (negsuc 11))
    × (atoi (codes "007") ≡ ok (pos 7))
    × (atoi (codes "2147483648") ≡ fault)
unfolding print_int atoi
print_then_read = (refl, refl, refl, refl, refl)
