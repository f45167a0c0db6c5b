-- ===== src/TicketProcesses/Tests.antt =====
-- The parent sells one ticket, the child two.
use linux_os_coding.Base.{◌+◌, ◌≡◌, refl, ◌⊎◌, some, List, [], ◌∷◌}
use linux_os_coding.TicketProcesses.{selling, Sale, start, sell, Who, turn, turns}
use linux_os_coding.TicketProcesses.Ends.{left, CanGoOn, SoldOut, turns-SoldOut}

abbrev schedule : List Who
schedule = Who.parent ∷ Who.child ∷ Who.child ∷ []

abbrev reached : Sale
reached = record { tickets = 47; child = selling 2; parent = selling 1 }

schedule_reaches : turns schedule start ≡ some reached
unfolding turns turn sell start
schedule_reaches = refl

turns-SoldOut_example : (3 + left reached ≡ 52) × (CanGoOn reached ⊎ SoldOut reached)
turns-SoldOut_example = turns-SoldOut schedule reached schedule_reaches
