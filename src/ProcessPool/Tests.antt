-- ===== src/ProcessPool/Tests.antt =====
-- Two children at work.
use linux_os_coding.Base.{ℕ, ◌≡◌, refl, Bool, true, false, List, [], ◌∷◌, map}
use linux_os_coding.Base.Int.{ℤ, pos, negsuc}
use linux_os_coding.Base.Bytes.{le_value, le_bytes, int_bytes, int_value}
use linux_os_coding.ProcessPool.{
  Parcel, Child, serving, leaving, killed, child_fail, on_notice, receiving, send_fd, recv_fd,
  make_child_process, child_receive, on_connect, on_exit, Turn, OneTurn, Step, Reach,
}
use linux_os_coding.ProcessPool.Everyone.{Everyone}
use linux_os_coding.ProcessPool.Leave.{NotOrdered, Reach-NotOrdered}
use linux_os_coding.ProcessPool.Busy.{Placed, Reach-Placed}

abbrev numbers : List (ℕ × ℕ)
numbers = (101, 4) ∷ (102, 6) ∷ []

-- Both children have a connection, a third one is dropped.
three_connections :
    map {B = Bool × List ℤ}
      (λ (c : Child). (c.busy_flag, map (λ (p : Parcel). p.fd) c.inbox))
      (on_connect
        (pos 9)
        (on_connect (pos 8) (on_connect (pos 7) (make_child_process numbers)).1).1).1
    ≡ (true, pos 7 ∷ []) ∷ (true, pos 8 ∷ []) ∷ []
unfolding on_connect make_child_process send_fd
three_connections = refl

-- The flag -1 arrives as 0x00ffffff.
exit_flag_read :
    int_value (recv_fd (send_fd (pos 0) (negsuc 0)) (int_bytes (pos 0))).1 ≡ pos 0xffffff
unfolding recv_fd send_fd int_bytes int_value le_value le_bytes
exit_flag_read = refl

abbrev started : List Child
started = make_child_process numbers

abbrev one_sent : List Child
one_sent = (on_connect (pos 7) started).1

reach_one : Reach numbers serving one_sent
unfolding on_connect make_child_process
reach_one = Reach.next serving serving started one_sent Reach.start (Step.connect (pos 7) started)

abbrev ordered : List Child
ordered = (on_exit started).1

-- The first child takes the order for a connection.
abbrev misled : List Child
misled =
    child_receive (send_fd (pos 0) (negsuc 0)) []
      (record first { inbox = send_fd (pos 0) (negsuc 0) ∷ [] })
    ∷ (record second { inbox = send_fd (pos 0) (negsuc 0) ∷ [] })
    ∷ []
  where
    first : Child
    first = record {
      pid = 101;
      fds = 4;
      busy_flag = false;
      inbox = [];
      outbox = [];
      exit_flag = int_bytes (pos 0);
      life = receiving;
    }

    second : Child
    second = record {
      pid = 102;
      fds = 6;
      busy_flag = false;
      inbox = [];
      outbox = [];
      exit_flag = int_bytes (pos 0);
      life = receiving;
    }

reach_misled : Reach numbers leaving misled
unfolding on_exit make_child_process
reach_misled =
    Reach.next leaving leaving ordered misled
      (Reach.next serving leaving started ordered Reach.start (Step.exit_order started))
      (Step.turn leaving ordered misled (λ e. cc e)
        (OneTurn.here _ _ _ (Turn.receive _ (send_fd (pos 0) (negsuc 0)) [] refl refl)))

Reach-NotOrdered_example : Everyone NotOrdered misled
Reach-NotOrdered_example = Reach-NotOrdered numbers leaving misled reach_misled

Reach-Placed_example : Placed (pos 8) one_sent (on_connect (pos 8) one_sent)
Reach-Placed_example = Reach-Placed numbers one_sent (pos 8) reach_one

-- The only child ends in `tran_file`, the parent takes the end of its socket for its notice, and the next
-- connection kills the parent.
after_failure :
    on_connect
      (pos 8)
      (on_notice 4 (map child_fail (on_connect (pos 7) (make_child_process ((101, 4) ∷ []))).1))
    ≡ (
      killed,
      on_notice 4 (map child_fail (on_connect (pos 7) (make_child_process ((101, 4) ∷ []))).1),
    )
unfolding on_connect on_notice make_child_process child_fail
after_failure = refl
