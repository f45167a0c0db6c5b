-- ===== src/Server/Loop/Tests.antt =====
-- The theorems on the event loop for one client that sends one command.
use linux_os_coding.Base.{◌≢◌, ◌≤◌, refl, true, false, some, [], ◌∷◌}
use linux_os_coding.Base.Int.{pos, negsuc}
use linux_os_coding.Base.Text.{codes, fill}
use linux_os_coding.Queue.Store.{Task}
use linux_os_coding.Server.{Message}
use linux_os_coding.Server.Log.{Tm}
use linux_os_coding.Server.Table.{ClientFd, free_slot, find, change, is_client_work}
use linux_os_coding.Server.Loop.{State, Reach, here, next, readable, on_readable, give_child_task}
use linux_os_coding.Server.Loop.Pending.{pending, flag, count}
use linux_os_coding.Server.Loop.InFlight.{one_task_in_flight}

abbrev now : Tm
now = record { year = 118; mon = 6; mday = 19; hour = 1; min = 2; sec = 3 }

abbrev idle : ClientFd
idle = record { fd = pos 5; work_flag = false; name = codes "bob"; path = [] }

abbrev ls_message : Message
ls_message = record { len = pos 0; order = pos 1; file_size = pos 0; buffer = [] }

abbrev ls_task : Task
ls_task = record { fd = pos 5; work_id = pos 1; option = [] }

abbrev quiet : State
quiet = record { clients = idle ∷ free_slot ∷ []; io = []; shell = []; busy = []; log = [] }

abbrev queued : State
queued = record quiet {
  clients = record idle { work_flag = true } ∷ free_slot ∷ [];
  shell = ls_task ∷ [];
}

five : pos 5 ≢ negsuc 0
five e = cc e

arrives : Reach quiet queued
unfolding on_readable give_child_task fill find is_client_work change
arrives = next here (readable now (pos 5) (some ls_message) five idle refl refl)

one_task_in_flight_example :
    (pending queued (pos 5) ≤ 1) × (pending queued (pos 5) ≤ flag queued.clients (pos 5))
unfolding count
one_task_in_flight_example = one_task_in_flight quiet queued (λ fd. refl) arrives (pos 5) five

-- The client of `queued` after its task was taken for a marker; another client's command arrives.
abbrev stuck : State
stuck = record quiet {
  clients = record idle { work_flag = true } ∷ record idle { fd = pos 6 } ∷ [];
}

abbrev other_queued : State
other_queued = record stuck {
  clients = record idle { work_flag = true } ∷ record idle { fd = pos 6; work_flag = true } ∷ [];
  shell = record ls_task { fd = pos 6 } ∷ [];
}

six : pos 6 ≢ negsuc 0
six e = cc e

other_arrives : Reach stuck other_queued
unfolding on_readable give_child_task fill find is_client_work change
other_arrives =
    next here (readable now (pos 6) (some ls_message) six (record idle { fd = pos 6 }) refl refl)
