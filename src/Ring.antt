-- ===== src/Ring.antt =====
-- wangdao/20180707/cus_pro_queue.c: the buffer of a producer and a consumer, an array of 20 numbers with
-- two positions. `put` and `get` run under the lock; `none` says that the caller waits and tests again.
pub mod Fifo
mod Tests
use linux_os_coding.Base.{
  ℕ, zero, suc, ◌+◌, ◌%◌, Option, none, some, List, [], ◌∷◌, ◌==◌, leb, if◌then◌else◌, get_elem?,
  set,
}
use linux_os_coding.Base.Int.{ℤ}

abbrev pub buffer_size : ℕ
buffer_size = 20

-- `prodcons` without the lock and the conditions.
pub record Prodcons : Type 0 where
  pub buffer : List ℤ
  pub readpos : ℕ
  pub writepos : ℕ

-- `p->pos++; if(p->pos >= BUFFER_SIZE) p->pos = 0;`
unfoldable pub next_pos : ℕ → ℕ
next_pos pos = if leb buffer_size (pos + 1) then 0 else pos + 1

-- What the array holds is left as it is.
unfoldable pub init : Prodcons → Prodcons
init p = record p { readpos = 0; writepos = 0 }

unfoldable pub put : Prodcons → ℤ → Option Prodcons
put p d =
    if (p.writepos + 1) % buffer_size == p.readpos
    then none
    else some (record p { buffer = set p.buffer p.writepos d; writepos = next_pos p.writepos })

unfoldable pub get : Prodcons → Option (ℤ × Prodcons)
get p = if p.writepos == p.readpos then none else elim (get_elem? p.buffer p.readpos) [
  | none ↦ none
  | some d ↦ some (d, record p { readpos = next_pos p.readpos })
]
