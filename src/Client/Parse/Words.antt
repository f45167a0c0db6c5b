-- ===== src/Client/Parse/Words.antt =====
-- What `get_input` takes from a line, and when it does not return.
use linux_os_coding.Base.{
  ℕ, zero, suc, ◌+◌, ◌<◌, ◌≤◌, ◌≡◌, refl, Bool, true, false, ok, fault, none, some, [], ◌∷◌, ◌++◌,
  append-nil, append_assoc, length, length-append, ltb, ltb→lt, lt→ltb, arith, inl, inr, Bool-cases,
}
use linux_os_coding.Base.Text.{Text}
use linux_os_coding.Client.Parse.{is_blank, in_word, skip_blanks, copy_word, get_input}

-- Every byte passes the test.
abbrev pub Every : (ℕ → Bool) → Text → Type 0
Every f [] = Unit
Every f (c ∷ s) = (f c ≡ true) × Every f s

abbrev pub zeros : ℕ → Text
zeros zero = []
zeros (suc n) = 0 ∷ zeros n

skip-blanks :
    (blanks : Text) (c : ℕ) (rest : Text)
    → Every is_blank blanks
    → is_blank c ≡ false
    → skip_blanks (blanks ++ c ∷ rest) ≡ ok (blanks, c ∷ rest)
unfolding skip_blanks
skip-blanks [] c rest h e = rw (e, skip_blanks)
skip-blanks (b ∷ blanks) c rest (hb, h) e = rw (hb, skip-blanks blanks c rest h e, skip_blanks)

skip-all : (blanks : Text) → Every is_blank blanks → skip_blanks blanks ≡ fault
unfolding skip_blanks
skip-all [] h = refl
skip-all (b ∷ blanks) (hb, h) = rw (hb, skip-all blanks h, skip_blanks)

copy-word :
    (fuel size key : ℕ) (order passed word : Text) (stop : ℕ) (rest : Text)
    → Every (in_word key) word
    → in_word key stop ≡ false
    → length order + length word ≤ size
    → length word < fuel
    → copy_word fuel size key order passed (word ++ stop ∷ rest)
      ≡ some (ok (order ++ word, passed ++ (zeros (length word) ++ 0 ∷ rest)))
unfolding copy_word
copy-word zero size key order passed word stop rest h e room enough = ground arith
copy-word (suc k) size key order passed [] stop rest h e room enough =
    rw (e, append-nil order, length, zeros, copy_word)
copy-word (suc k) size key order passed (c ∷ word) stop rest (hc, h) e room enough = rw (
  hc,
  lt→ltb (length order) size (omega arith),
  copy-word k size key (order ++ c ∷ []) (passed ++ 0 ∷ []) word stop rest h e
      (omega (arith, length-append order (c ∷ []))) (omega arith),
  append_assoc order (c ∷ []) word,
  append_assoc passed (0 ∷ []) (zeros (length word) ++ 0 ∷ rest),
  copy_word,
)

copy-long :
    (fuel size key : ℕ) (order passed word rest : Text)
    → Every (in_word key) word
    → size < length order + length word
    → length order ≤ size
    → copy_word fuel size key order passed (word ++ rest) ≡ none
unfolding copy_word
copy-long zero size key order passed word rest h long room = refl
copy-long (suc k) size key order passed [] rest h long room = ground arith
copy-long (suc k) size key order passed (c ∷ word) rest (hc, h) long room =
    elim (Bool-cases (ltb (length order) size)) [
      | inl e ↦ rw (
        hc,
        e,
        copy-long k size key (order ++ c ∷ []) (passed ++ 0 ∷ []) word rest h
            (omega (arith, length-append order (c ∷ [])))
            (omega (arith, length-append order (c ∷ []), ltb→lt (length order) size e)),
        copy_word,
      )
      | inr e ↦
          rw (hc, e, copy-long k size key order passed (c ∷ word) rest (hc, h) long room, copy_word)
    ]

-- On a buffer with blanks or zeros, then a word of at most `size` bytes that are neither `key` nor
-- NUL nor line feed, the first of them `c` not blank, then a byte that ends the word, `get_input`
-- with more fuel than the word has bytes returns: its result is the word, and in the buffer the word
-- and the byte behind it are zeros while the rest is as it was.
pub get_input-word :
    (fuel size key : ℕ) (blanks : Text) (c : ℕ) (word : Text) (stop : ℕ) (rest : Text)
    → Every is_blank blanks
    → is_blank c ≡ false
    → Every (in_word key) (c ∷ word)
    → in_word key stop ≡ false
    → length (c ∷ word) ≤ size
    → length (c ∷ word) < fuel
    → get_input fuel size key (blanks ++ c ∷ (word ++ stop ∷ rest))
      ≡ some (ok (c ∷ word, blanks ++ (zeros (length (c ∷ word)) ++ 0 ∷ rest)))
unfolding get_input
get_input-word fuel size key blanks c word stop rest hb nb h e room enough = rw (
  skip-blanks blanks c (word ++ stop ∷ rest) hb nb,
  get_input,
  copy-word fuel size key [] blanks (c ∷ word) stop rest h e (omega arith) enough,
)

-- On a buffer with blanks or zeros, then more than `size` bytes that are neither `key` nor NUL nor
-- line feed, the first of them not blank, the loop of `get_input` never ends: whatever the fuel, it
-- runs out.
pub get_input-long :
    (fuel size key : ℕ) (blanks : Text) (c : ℕ) (word rest : Text)
    → Every is_blank blanks
    → is_blank c ≡ false
    → Every (in_word key) (c ∷ word)
    → size < length (c ∷ word)
    → get_input fuel size key (blanks ++ c ∷ (word ++ rest)) ≡ none
unfolding get_input
get_input-long fuel size key blanks c word rest hb nb h long = rw (
  skip-blanks blanks c (word ++ rest) hb nb,
  get_input,
  copy-long fuel size key [] blanks (c ∷ word) rest h (omega arith) (omega arith),
)

-- A buffer with nothing but blanks and zeros is left behind by the first loop, which reads on.
pub get_input-blank :
    (fuel size key : ℕ) (blanks : Text)
    → Every is_blank blanks
    → get_input fuel size key blanks ≡ some fault
unfolding get_input
get_input-blank fuel size key blanks h = rw (skip-all blanks h, get_input)
