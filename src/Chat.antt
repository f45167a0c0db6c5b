-- ===== src/Chat.antt =====
-- wangdao/20180704/group_chat_task/server_group_chat.c: the rounds of the chat server over its list of
-- clients. What `select`, `accept`, `recv` and `read` give is the input of a round. Results of `send`
-- are not looked at by the code. What the server prints is left out.
pub mod Clients
pub mod Turn
pub mod Walk
pub mod Closed
mod Tests
use linux_os_coding.Base.{
  ℕ, zero, suc, ◌-◌, Bool, true, false, Run, ok, fault, ◌>>=◌, Option, none, some, ◌==◌,
  if◌then◌else◌, ltb, List, [], ◌∷◌, ◌++◌, length, take, is_empty,
}
use linux_os_coding.Base.Text.{Text, codes, fill}
use linux_os_coding.Base.Int.{ℤ, pos, negsuc, eqb_ℤ}
use linux_os_coding.Memory.{Ptr, null, Memory, load, update}
use linux_os_coding.LinkList.{Node, Ends, item_of, list_head_insert, list_delete_by_key}

-- `dataType`; the name is empty until the client has sent one.
pub record Client : Type 0 where
  pub client_fd : ℤ
  pub name : Text

abbrev pub equal : Client → Client → Bool
equal key d = eqb_ℤ key.client_fd d.client_fd

-- What the server keeps: the list, the clients' descriptors in `tmp_fd`, and the texts that it has sent.
pub record Chat : Type 0 where
  pub ends : Ends
  pub heap : Memory (Node Client)
  pub watched : List ℤ
  pub sent : List (ℤ × Text)

-- `recv` returns 0, -1, or the number of the bytes that it has stored.
pub data Recv : Type 0 where
  closed : Recv
  failed : Recv
  bytes : Text → Recv

-- A cleared array up to its first zero, once `s` has been stored at its start.
unfoldable pub text_of : Text → Text
text_of [] = []
text_of (c ∷ s) = let rest = text_of s in if c == 0 then [] else c ∷ rest

-- `buff` of 128 bytes as a string: without a zero in it the code would read on behind it.
unfoldable pub buffer : Recv → Run Text
buffer closed = ok []
buffer failed = ok []
buffer (bytes s) = if ltb (length (text_of s)) 128 then ok (text_of s) else fault

abbrev pub skips : Option ℤ → ℤ → Bool
skips none fd = false
skips (some from) fd = eqb_ℤ fd from

-- The loops over `w_node` and over the clients that get the server's own text, at `p`. `skip` is the
-- client that a text comes from.
unfoldable pub send_text :
    ℕ
    → (p : Ptr) → (skip : Option ℤ) → Text
    → Memory (Node Client)
    → List (ℤ × Text)
    → Run (List (ℤ × Text))
send_text zero p skip text h sent = fault
send_text (suc k) p skip text h sent = load h p >>= λ n. elim (n.next == null) [
  | true ↦ ok sent
  | false ↦ load h n.next >>= λ m. item_of m >>= λ w.
      send_text k n.next skip text h
        (if skips skip w.client_fd then sent else sent ++ (w.client_fd, text) ∷ [])
]

abbrev pub remove : ℤ → List ℤ → List ℤ
remove fd [] = []
remove fd (x ∷ xs) = if eqb_ℤ x fd then remove fd xs else x ∷ remove fd xs

abbrev pub with_name : Client → Text → Client
with_name d text = record d { name = text }

-- A text of the client at `q`: its name first, then what the others get to read.
unfoldable pub on_text : (fuel : ℕ) → (q : Ptr) → Client → (buff : Text) → Chat → Run Chat
on_text fuel q d buff s = elim (is_empty d.name) [
  | true ↦ fill 20 buff >>= λ name.
      update s.heap q (λ n. record n { item = some (with_name d name) }) >>= λ heap.
      ok (record s { heap = heap })
  | false ↦ fill 150 (d.name ++ b':' ∷ buff) >>= λ text.
      send_text fuel s.ends.head (some d.client_fd) text s.heap s.sent >>= λ sent.
      ok (record s { sent = sent })
]

-- The client at `q` is ready.
unfoldable pub on_receive : (fuel : ℕ) → (q : Ptr) → Client → Recv → Chat → Run Chat
on_receive fuel q d closed s =
    list_delete_by_key equal fuel s.ends.head s.ends d s.heap >>= λ (ends, heap).
    ok (record s { ends = ends; heap = heap; watched = remove d.client_fd s.watched })
on_receive fuel q d failed s = buffer failed >>= λ buff. on_text fuel q d buff s
on_receive fuel q d (bytes text) s = buffer (bytes text) >>= λ buff. on_text fuel q d buff s

unfoldable pub serve : (fuel : ℕ) → (ready : ℤ → Option Recv) → (q : Ptr) → Client → Chat → Run Chat
serve fuel ready q d s = elim (ready d.client_fd) [ none ↦ ok s | some r ↦ on_receive fuel q d r s ]

-- The loop over the clients at `c_node`; `fuel` is that of the walks inside a turn.
unfoldable pub client_loop :
    ℕ → (fuel : ℕ) → (ready : ℤ → Option Recv) → (c_node : Ptr) → Chat → Run Chat
client_loop zero fuel ready p s = fault
client_loop (suc k) fuel ready p s = load s.heap p >>= λ n. elim (n.next == null) [
  | true ↦ ok s
  | false ↦ load s.heap n.next >>= λ m.
      item_of m >>= λ d. serve fuel ready n.next d s >>= λ s'. client_loop k fuel ready n.next s'
]

-- What one `select` reports: a new connection with what `accept` returns and the node that `malloc`
-- gives, the ready clients, and what `read` puts into the cleared `buff` from the terminal.
pub record Event : Type 0 where
  pub accepted : Option (ℤ × Ptr)
  pub ready : ℤ → Option Recv
  pub typed : Option Text

unfoldable pub on_accept : Option (ℤ × Ptr) → Chat → Run Chat
on_accept none s = ok s
on_accept (some (get_fd, fresh)) s =
    let new_c : Client = record { client_fd = get_fd; name = [] } in
    if eqb_ℤ get_fd (negsuc 0) then ok s else (do
      (ends, heap) ← list_head_insert fresh s.ends new_c s.heap
      ok (record {
        ends = ends;
        heap = heap;
        watched = get_fd ∷ s.watched;
        sent = s.sent ++ (get_fd, codes "Input your name:") ∷ [];
      }))

unfoldable pub on_typed : (fuel : ℕ) → Option Text → Chat → Run Chat
on_typed fuel none s = ok s
on_typed fuel (some typed) s = do
  buff ← buffer (bytes typed)
  text ← fill 150 (codes "SERVER:" ++ buff)
  sent ← send_text fuel s.ends.head none (take (length text - 1) text) s.heap s.sent
  ok (record s { sent = sent })

unfoldable pub round : (fuel : ℕ) → Event → Chat → Run Chat
round fuel ev s = do
  s1 ← on_accept ev.accepted s
  s2 ← client_loop fuel fuel ev.ready s1.ends.head s1
  on_typed fuel ev.typed s2
