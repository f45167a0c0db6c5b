-- ===== src/Tickets/Tests.antt =====
-- The four windows of the source.
use linux_os_coding.Base.{◌+◌, ◌*◌, ◌≡◌, refl, false, List, ◌∷◌, replicate}
use linux_os_coding.Tickets.{Window, selling, top, sale_windows, signal_if, Sells, Reach}
use linux_os_coding.Tickets.Count.{sold, rounds, Reach-sold}
use linux_os_coding.Tickets.Wait.{Stuck, Reach-Stuck}

abbrev three_at_start : List Window
three_at_start = replicate 3 (selling 0)

one_sold : Reach 4 (selling 1 ∷ three_at_start) 19 (top 3)
unfolding sale_windows signal_if
one_sold =
    Reach.sale _ _ 20 19 false (top 3) Reach.start
      (Sells.here 0 20 19 (selling 1) false three_at_start refl)

Reach-sold_example : sold (selling 1 ∷ three_at_start) + 19 + 20 * rounds (top 3) ≡ 80
Reach-sold_example = Reach-sold 4 (selling 1 ∷ three_at_start) 19 (top 3) one_sold

Reach-Stuck_example : Stuck 4
Reach-Stuck_example = Reach-Stuck 3
