-- ===== src/Tickets.antt =====
-- wangdao/20180702/pthread_sale_tickets.c: windows that sell tickets, and one that puts new tickets out.
-- What a thread does between two takings of the lock is one turn. A wait ends by a signal only. The number
-- of windows is a parameter; the thread that puts tickets out starts behind them, and its first turn may
-- come at any time.
pub mod Count
pub mod Wait
mod Tests
use linux_os_coding.Base.{
  ℕ, zero, suc, ◌-◌, ◌≡◌, Bool, true, false, Option, none, some, List, [], ◌∷◌, replicate, ltb,
  ◌==◌, if◌then◌else◌,
}

-- `saleWindows` with its `total_sale`: in its loop, or behind it.
pub data Window : Type 0 where
  selling : ℕ → Window
  closed : ℕ → Window

-- `setWindows`: before the lock with so many rounds to go, in `pthread_cond_wait` or woken there with so
-- many to follow, or behind its loop.
pub data Setter : Type 0 where
  top : ℕ → Setter
  waiting : ℕ → Setter
  woken : ℕ → Setter
  over : Setter

-- A turn of a window that sells: the window, `ticket_num`, and whether it signals.
unfoldable pub sale_windows : (total_sale ticket_num : ℕ) → Window × ℕ × Bool
sale_windows total_sale zero = (closed total_sale, 0, false)
sale_windows total_sale (suc n) = (selling (suc total_sale), n, n == 0)

-- A turn of the other thread: it waits while there are tickets, else there are 20 again.
unfoldable pub set_windows : Setter → (ticket_num : ℕ) → Option (Setter × ℕ)
set_windows (top zero) n = some (over, n)
set_windows (top (suc k)) n = if ltb 0 n then some (waiting k, n) else some (top k, 20)
set_windows (waiting k) n = none
set_windows (woken k) n = some (top k, 20)
set_windows over n = none

-- `pthread_cond_signal`, where the window has called it.
unfoldable pub signal_if : Bool → Setter → Setter
signal_if true (waiting k) = woken k
signal_if true (top k) = top k
signal_if true (woken k) = woken k
signal_if true over = over
signal_if false st = st

-- One of the windows makes a turn.
pub data Sells : List Window → ℕ → List Window → ℕ → Bool → Type 0 where
  here :
      (total n n' : ℕ) (w : Window) (signal : Bool) (ws : List Window)
      → sale_windows total n ≡ (w, n', signal)
      → Sells (selling total ∷ ws) n (w ∷ ws) n' signal
  there :
      (w : Window) (ws ws' : List Window) (n n' : ℕ) (signal : Bool)
      → Sells ws n ws' n' signal
      → Sells (w ∷ ws) n (w ∷ ws') n' signal

-- The states of the windows, `ticket_num` and the other thread that `windows` windows may come to.
pub data Reach (windows : ℕ) : List Window → ℕ → Setter → Type 0 where
  start : Reach windows (replicate windows (selling 0)) 20 (top 3)
  sale :
      (ws ws' : List Window) (n n' : ℕ) (signal : Bool) (st : Setter)
      → Reach windows ws n st
      → Sells ws n ws' n' signal
      → Reach windows ws' n' (signal_if signal st)
  put :
      (ws : List Window) (n n' : ℕ) (st st' : Setter)
      → Reach windows ws n st
      → set_windows st n ≡ some (st', n')
      → Reach windows ws n' st'
