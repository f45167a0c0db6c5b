-- ===== src/Chat/Tests.antt =====
-- Two clients in a chat: 5 has the name ann, 6 has none yet.
use linux_os_coding.Base.{
  ◌≡◌, refl, Run, ok, fault, ◌>>=◌, Option, none, some, List, [], ◌∷◌, arith, if◌then◌else◌,
}
use linux_os_coding.Base.Int.{ℤ, pos, eqb_ℤ}
use linux_os_coding.Base.Text.{Text, codes, fill}
use linux_os_coding.Memory.{Memory, write, load}
use linux_os_coding.LinkList.{Node, Ends, cell, set_next, list_head_insert, list_delete_by_key}
use linux_os_coding.LinkList.Shape.{Cells, IsList}
use linux_os_coding.Chat.{
  Client, Chat, Recv, closed, bytes, text_of, buffer, send_text, equal, client_loop, serve,
  on_accept, on_typed, round,
}
use linux_os_coding.Chat.Clients.{copies}
use linux_os_coding.Chat.Turn.{all_named, deliveries}
use linux_os_coding.Chat.Walk.{client_loop-deliveries}
use linux_os_coding.Chat.Closed.{client_loop-closed}

abbrev two_clients : Cells Client
two_clients =
    (2, record { client_fd = pos 5; name = codes "ann" })
    ∷ (3, record { client_fd = pos 6; name = [] })
    ∷ []

abbrev two_chat : Chat
two_chat = record {
  ends = record { head = 1; rear = 3 };
  heap =
      write
        (write (write (λ a. none) 1 (some (cell none 2))) 2
          (some (cell (some (record { client_fd = pos 5; name = codes "ann" })) 3)))
        3 (some (cell (some (record { client_fd = pos 6; name = [] })) 0));
  watched = pos 6 ∷ pos 5 ∷ [];
  sent = [];
}

two_chat-IsList : IsList two_chat.heap two_chat.ends two_clients
unfolding write
two_chat-IsList = record {
  linked = (
    ground arith,
    refl,
    (ground arith, (ground arith, tt)),
    (ground arith, refl, (ground arith, tt), (ground arith, refl)),
  );
  rear_end = refl;
}

abbrev both_write : ℤ → Option Recv
both_write fd = if eqb_ℤ fd (pos 5) then some (bytes (codes "hi")) else some (bytes (codes "bob"))

abbrev one_leaves : ℤ → Option Recv
one_leaves fd = if eqb_ℤ fd (pos 6) then some closed else none

client_loop-deliveries_example :
    (s' : Chat) × (client_loop 3 3 both_write 1 two_chat ≡ ok s')
    × IsList s'.heap s'.ends (all_named both_write two_clients)
    × (s'.ends ≡ two_chat.ends)
    × (s'.watched ≡ two_chat.watched)
    × (s'.sent ≡ deliveries both_write (pos 5 ∷ pos 6 ∷ []) two_clients)
unfolding text_of
client_loop-deliveries_example =
    client_loop-deliveries 3 both_write two_chat two_clients two_chat-IsList
      (refl, omega arith, (refl, omega arith, tt)) (omega arith)

what_is_sent : deliveries both_write (pos 5 ∷ pos 6 ∷ []) two_clients ≡ (pos 6, codes "ann:hi") ∷ []
unfolding copies text_of
what_is_sent = refl

client_loop-closed_example :
    (e : Ends) × (h : Memory (Node Client)) × (list_delete_by_key equal 3 1 two_chat.ends
        (record { client_fd = pos 6; name = [] })
        two_chat.heap
      ≡ ok (e, h))
    × (h 3 ≡ none)
    × (client_loop 3 3 one_leaves 1 two_chat ≡ fault)
client_loop-closed_example =
    client_loop-closed 3 one_leaves two_chat
      ((2, record { client_fd = pos 5; name = codes "ann" }) ∷ []) [] 3
      (record { client_fd = pos 6; name = [] }) two_chat-IsList (refl, tt) (ground arith, tt) refl
      (omega arith)

abbrev a_round : Run (List (ℤ × Text))
a_round =
    round 9
      (record { accepted = some (pos 7, 4); ready = λ fd. none; typed = some (codes "all\n") })
      two_chat
    >>= λ s. ok s.sent

sent_in_a_round :
    a_round
    ≡ ok (
        (pos 7, codes "Input your name:")
        ∷ (pos 7, codes "SERVER:all")
        ∷ (pos 5, codes "SERVER:all")
        ∷ (pos 6, codes "SERVER:all")
        ∷ [])
unfolding round on_accept list_head_insert load write set_next client_loop serve on_typed buffer
    text_of fill send_text
sent_in_a_round = refl
