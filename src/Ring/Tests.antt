-- ===== src/Ring/Tests.antt =====
-- A buffer whose numbers stand round the end of the array.
use linux_os_coding.Base.{◌≡◌, refl, none, [], ◌∷◌, ◌++◌, replicate, arith}
use linux_os_coding.Base.Int.{pos}
use linux_os_coding.Ring.{Prodcons, next_pos, init, get}
use linux_os_coding.Ring.Fifo.{IsRing, Gives, Takes, put_get-IsRing}

abbrev round_the_end : Prodcons
round_the_end = record {
  buffer = pos 8 ∷ replicate 18 (pos 0) ++ pos 7 ∷ [];
  readpos = 19;
  writepos = 1;
}

round_the_end-IsRing : IsRing round_the_end (pos 7 ∷ pos 8 ∷ [])
unfolding next_pos
round_the_end-IsRing = record {
  size = refl;
  start = omega arith;
  few = omega arith;
  end = refl;
  holds = (refl, (refl, tt));
}

put_get-IsRing_example :
    Gives round_the_end (pos 7 ∷ pos 8 ∷ []) × Takes round_the_end (pos 7 ∷ pos 8 ∷ []) (pos 9)
put_get-IsRing_example =
    put_get-IsRing round_the_end (pos 7 ∷ pos 8 ∷ []) (pos 9) round_the_end-IsRing

empty_waits : get (init round_the_end) ≡ none
unfolding get init
empty_waits = refl
