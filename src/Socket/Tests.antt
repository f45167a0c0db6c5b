-- ===== src/Socket/Tests.antt =====
-- The theorems on a stream that comes in pieces.
use linux_os_coding.Base.{List, [], ◌∷◌, arith}
use linux_os_coding.Base.Text.{codes}
use linux_os_coding.Socket.{Answer, Arrival, took, chunk, send_n, recv_n}
use linux_os_coding.Socket.Send.{Sent, send_n-Sent}
use linux_os_coding.Socket.Recv.{Received, recv_n-Received}

abbrev answers : List Answer
answers = took 2 ∷ Answer.again ∷ took 1 ∷ took 9 ∷ []

abbrev arrivals : List Arrival
arrivals = chunk (codes "ab") ∷ Arrival.again ∷ chunk (codes "cde") ∷ []

send_n-Sent_example : Sent (codes "abc") (send_n answers (codes "abc"))
send_n-Sent_example = send_n-Sent answers (codes "abc")

recv_n-Received_example : Received 4 [] (codes "abcde") (recv_n arrivals 4)
recv_n-Received_example = recv_n-Received arrivals 4 (omega arith) (omega arith, (omega arith, tt))
