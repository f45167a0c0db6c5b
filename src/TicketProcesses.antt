-- ===== src/TicketProcesses.antt =====
-- wangdao/20180628/sale_tickets.c: two processes that sell tickets from shared memory under a semaphore. What a
-- process does between `sopp` and `sopv` is one turn. That the parent waits at first until the child has
-- begun is left out: a turn of the parent's may come first.
pub mod Ends
mod Tests
use linux_os_coding.Base.{ℕ, zero, suc, Bool, true, false, Option, none, some, List, [], ◌∷◌}

-- The loop of a process: it sells, and has sold so many, or it has left the loop.
pub data Process : Type 0 where
  selling : ℕ → Process
  finished : ℕ → Process

-- `p[0]`, and the two processes.
pub record Sale : Type 0 where
  pub tickets : ℕ
  pub child : Process
  pub parent : Process

unfoldable pub start : Sale
start = record { tickets = 50; child = selling 0; parent = selling 0 }

-- A turn of a process: what it has become, and the tickets left.
unfoldable pub sell : Process → ℕ → Option (Process × ℕ)
sell (selling sold) zero = some (finished sold, 0)
sell (selling sold) (suc n) = some (selling (suc sold), n)
sell (finished sold) n = none

pub data Who : Type 0 where
  child : Who
  parent : Who

unfoldable pub turn : Who → Sale → Option Sale
turn Who.child s = elim (sell s.child s.tickets) [
  | none ↦ none
  | some r ↦ some (record s { child = r.0; tickets = r.1 })
]
turn Who.parent s = elim (sell s.parent s.tickets) [
  | none ↦ none
  | some r ↦ some (record s { parent = r.0; tickets = r.1 })
]

-- The turns in the order that the semaphore grants.
unfoldable pub turns : List Who → Sale → Option Sale
turns [] s = some s
turns (w ∷ ws) s = elim (turn w s) [ none ↦ none | some s' ↦ turns ws s' ]
