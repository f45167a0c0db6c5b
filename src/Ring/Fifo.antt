-- ===== src/Ring/Fifo.antt =====
-- The buffer against the list of the numbers in it.
use linux_os_coding.Base.{
  ℕ, zero, suc, ◌+◌, ◌%◌, ◌≤◌, ◌<◌, ◌≡◌, ◌≢◌, refl, sym, ap, ◌∙◌, true, false, none, some, List, [],
  ◌∷◌, ◌++◌, length, length-append, ◌==◌, get_elem?, set, length-set, get_elem?-set_self,
  get_elem?-set_ne, arith, Bool-cases, inl, inr, ◌⊎◌,
}
use linux_os_coding.Base.Int.{ℤ}
use linux_os_coding.Ring.{Prodcons, next_pos, put, get}

-- From the position on, round the end of the array, stand these numbers.
abbrev pub Holds : List ℤ → ℕ → List ℤ → Type 0
Holds buf pos [] = Unit
Holds buf pos (x ∷ xs) = (get_elem? buf pos ≡ some x) × Holds buf (next_pos pos) xs

pub record IsRing (p : Prodcons) (xs : List ℤ) : Type 0 where
  pub size : length p.buffer ≡ 20
  pub start : p.readpos < 20
  pub few : length xs < 20
  pub end : p.writepos ≡ (p.readpos + length xs) % 20
  pub holds : Holds p.buffer p.readpos xs

next_mod :
    (pos n : ℕ) → pos < 20 → (next_pos pos < 20) × ((next_pos pos + n) % 20 ≡ (pos + suc n) % 20)
unfolding next_pos
next_mod pos n h = ground arith

next_lem : (pos : ℕ) → pos < 20 → next_pos pos ≡ (pos + 1) % 20
unfolding next_pos
next_lem pos h = ground arith

elsewhere : (pos n w : ℕ) → pos < 20 → w ≡ (pos + suc n) % 20 → suc n < 20 → w ≢ pos
elsewhere pos n w h e less same = absurd (omega arith)

here : (pos w : ℕ) → pos < 20 → w ≡ (pos + 0) % 20 → pos ≡ w
here pos w h e = omega arith

-- A write behind the numbers, less than a round away.
put_behind :
    (buf : List ℤ) (pos n w : ℕ) (d : ℤ) (xs : List ℤ)
    → pos < 20
    → w ≡ (pos + n) % 20
    → length xs ≤ n
    → n < 20
    → Holds buf pos xs
    → Holds (set buf w d) pos xs
put_behind buf pos n w d [] h e few less all = tt
put_behind buf pos zero w d (x ∷ xs) h e few less all = absurd (omega arith)
put_behind buf pos (suc n) w d (x ∷ xs) h e few less (x_at, all) =
    let (h', e') = next_mod pos n h in
    (
      get_elem?-set_ne buf d (elsewhere pos n w h e less) ∙ x_at,
      put_behind buf (next_pos pos) n w d xs h' (e ∙ sym e') (omega arith) (omega arith) all,
    )

-- The number that has been written ends the list.
put_there :
    (buf : List ℤ) (pos w : ℕ) (d : ℤ) (xs : List ℤ)
    → pos < 20
    → w ≡ (pos + length xs) % 20
    → get_elem? buf w ≡ some d
    → Holds buf pos xs
    → Holds buf pos (xs ++ d ∷ [])
put_there buf pos w d [] h e at all = (ap (get_elem? buf) (here pos w h e) ∙ at, tt)
put_there buf pos w d (x ∷ xs) h e at (x_at, all) =
    let (h', e') = next_mod pos (length xs) h in
    (x_at, put_there buf (next_pos pos) w d xs h' (e ∙ sym e') at all)

module _ (p : Prodcons) (xs : List ℤ) (is : IsRing p xs) where
  full : length xs ≡ 19 → ((p.writepos + 1) % 20 == p.readpos) ≡ true
  full e = let a = is.end in let b = is.start in ground arith

  room : length xs < 19 → ((p.writepos + 1) % 20 == p.readpos) ≡ false
  room h = let a = is.end in let b = is.start in ground arith

  put-full : (d : ℤ) → length xs ≡ 19 → put p d ≡ none
  unfolding put
  put-full d e = rw (full e) refl

  written : (d : ℤ) → Prodcons
  written d = record p { buffer = set p.buffer p.writepos d; writepos = next_pos p.writepos }

  put-room :
      (d : ℤ) → length xs < 19 → (put p d ≡ some (written d)) × IsRing (written d) (xs ++ d ∷ [])
  unfolding put written
  put-room d h =
      let inside : p.writepos < 20 = omega (arith, is.end, is.start) in
      (
        rw (room h) refl,
        record {
          size = length-set p.buffer p.writepos d ∙ is.size;
          start = is.start;
          few = omega (arith, length-append xs (d ∷ []));
          end =
              next_lem p.writepos inside
              ∙ omega (arith, is.end, is.start, length-append xs (d ∷ []));
          holds =
              put_there (set p.buffer p.writepos d) p.readpos p.writepos d xs is.start is.end
                (get_elem?-set_self p.buffer p.writepos d (omega (arith, is.size)))
                (put_behind p.buffer p.readpos (length xs) p.writepos d xs is.start is.end
                  (omega arith) is.few is.holds);
        },
      )

get-empty : (p : Prodcons) → IsRing p [] → get p ≡ none
unfolding get
get-empty p is =
    let a = is.end in
    let b = is.start in let same : (p.writepos == p.readpos) ≡ true = ground arith in rw same refl

get-first :
    (p : Prodcons) (x : ℤ) (xs : List ℤ)
    → IsRing p (x ∷ xs)
    → (get p ≡ some (x, record p { readpos = next_pos p.readpos }))
      × IsRing (record p { readpos = next_pos p.readpos }) xs
unfolding get
get-first p x xs is =
    let a = is.end in
    let b = is.start in
    let c = is.few in
    let differ : (p.writepos == p.readpos) ≡ false = ground arith in
    let (h', e') = next_mod p.readpos (length xs) is.start in
    (
      rw (differ, is.holds.0) refl,
      record {
        size = is.size;
        start = h';
        few = omega (arith, is.few);
        end = is.end ∙ sym e';
        holds = is.holds.1;
      },
    )

-- What `get` and `put` owe to the list of the numbers in the buffer.
abbrev pub Gives : Prodcons → List ℤ → Type 0
Gives p [] = get p ≡ none
Gives p (x ∷ xs) = (p' : Prodcons) × (get p ≡ some (x, p')) × IsRing p' xs

abbrev pub Takes : Prodcons → List ℤ → ℤ → Type 0
Takes p xs d =
    ((length xs ≡ 19) × (put p d ≡ none))
    ⊎ ((length xs < 19) × ((p' : Prodcons) × (put p d ≡ some p') × IsRing p' (xs ++ d ∷ [])))

-- For a buffer that holds the numbers of a list, at most 19: `get` waits if there are none, and else
-- gives the first and leaves the others in order; `put` waits if there are 19, and else adds its number
-- behind the last. This holds wherever in the array the numbers begin.
pub put_get-IsRing : (p : Prodcons) (xs : List ℤ) (d : ℤ) → IsRing p xs → Gives p xs × Takes p xs d
put_get-IsRing p xs d is = (gives xs is, takes)
  where
    gives : (xs : List ℤ) → IsRing p xs → Gives p xs
    gives [] is = get-empty p is
    gives (x ∷ xs) is = let (run, is') = get-first p x xs is in (_, run, is')

    takes : Takes p xs d
    takes = elim (Bool-cases (length xs == 19)) [
      | inl e ↦ let n : length xs ≡ 19 = ground arith in inl (n, put-full p xs is d n)
      | inr e ↦
          let n : length xs < 19 = let few = is.few in ground arith in
          let (run, is') = put-room p xs is d n in inr (n, (_, run, is'))
    ]
