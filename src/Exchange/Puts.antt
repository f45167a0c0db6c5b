-- ===== src/Exchange/Puts.antt =====
-- puts: the server's `recv_file` and the client's `send_file`.
use linux_os_coding.Base.{
  ℕ, suc, List, ap, ◌∙◌, true, append_assoc, ◌-◌, ◌≡◌, ◌≤◌, ◌<◌, refl, false, some, [], ◌∷◌, ◌++◌,
  length, drop, arith,
}
use linux_os_coding.Base.Int.{ℤ, pos, negsuc, eqb_ℤ, leb_ℤ}
use linux_os_coding.Base.Text.{Text}
use linux_os_coding.Wire.{Link, Files, Packet, whole, raw, later, send_message, recv_message}
use linux_os_coding.Server.{Message}
use linux_os_coding.Server.Transfer as ServerSide
use linux_os_coding.Client.Transfer as ClientSide
use linux_os_coding.Exchange.{
  Target, Received, Hears, heard, open_lem, loop-Received, loop-sent, sendfile-rest,
}
use linux_os_coding.Exchange.Gets.{sized}

module _ (file : Text) (k : ℕ) (more : k < length file) (m : Message) where
  -- What the server sends: how much it has.
  abbrev pub from_server : List Packet
  from_server = whole (sized m k) ∷ []

  -- What the client sends: the size of the file, and its bytes from `k` on.
  abbrev pub from_client : List Packet
  from_client = whole (sized m (length file)) ∷ raw (drop k file) ∷ []

  -- `send_file` with the message that the client has received, `unread` before that.
  abbrev pub Offered : Files → (path : Text) → (unread : Message) → Link → Type 0
  Offered fs path unread l =
      (l' : Link) × (ClientSide.send_file fs path (recv_message unread l).1
          (recv_message unread l).2
        ≡ (pos 1, sized m (length file), l'))
      × (l'.sent ≡ l.sent ++ from_client)

  client_lem :
      (fs : Files) (path : Text) (unread : Message) (l : Link) (most n : ℕ)
      → fs.content path ≡ some file
      → l.send_results 0 ≡ pos 1
      → l.sendfile_results 0 ≡ some most
      → length file ≤ most
      → Hears from_server l.replies n l.chunks
      → Offered fs path unread l
  unfolding ClientSide.send_file send_message
  client_lem fs path unread l most n e s f enough (asked, end) =
      let first = whole (sized m (length file)) in
      let l1 : Link = record l {
        sent = l.sent ++ first ∷ [];
        send_results = later l.send_results;
        replies = later l.replies;
      } in
      let bigger : leb_ℤ (pos (length file)) (pos k) ≡ false = ground arith in
      let some_bytes : eqb_ℤ (pos (length file - k)) (pos 0) ≡ false = ground arith in
      let no_error : eqb_ℤ (pos (length file - k)) (negsuc 0) ≡ false = ground arith in
      let rest = sendfile-rest k most file l1 f enough in
      (
        record l1 {
          sent = (l.sent ++ first ∷ []) ++ raw (drop k file) ∷ [];
          sendfile_results = later l.sendfile_results;
        },
        ap (λ (x : ℤ × Message × Link). ClientSide.send_file fs path x.1 x.2)
              (heard unread (sized m k) l asked)
            ∙ rw (e, ClientSide.send_file, s, rest, bigger, some_bytes, no_error) refl,
        append_assoc l.sent (first ∷ []) (raw (drop k file) ∷ []),
      )

  abbrev pub Stored : (fuel : ℕ) → Files → (path : Text) → Link → Type 0
  Stored fuel fs path l =
      (fs' : Files) × (l' : Link) × (ServerSide.recv_file fuel fs path m l
        ≡ some (pos 1, fs', sized m (length file), l'))
      × (l'.sent ≡ l.sent ++ from_server)
      × Received fs fs' path file

  server_lem :
      (n : ℕ) (fs : Files) (path : Text) (l : Link)
      → Target fs path k file
      → l.send_results 0 ≡ pos 1
      → Hears from_client l.replies n l.chunks
      → Stored (suc n) fs path l
  unfolding ServerSide.recv_file send_message recv_message
  server_lem n fs path l t s (r, (b, end)) =
      let l1 : Link = record l {
        sent = l.sent ++ whole (sized m k) ∷ [];
        send_results = later l.send_results;
        replies = later l.replies;
      } in
      let (fs1, opened, e, others) = open_lem fs path k file (omega arith) t in
      let (fs', l', run, got) = loop-Received n k path file fs fs1 l1 e others (omega arith) b in
      let bigger : leb_ℤ (pos (length file)) (pos k) ≡ false = ground arith in
      (
        fs',
        l',
        ground (arith, opened, s, r, run, bigger),
        loop-sent (suc n) true path k (pos (length file)) (pos 1) fs1 fs' l1 l' run,
        got,
      )

  -- puts: the client has the file, the server fewer bytes, the first `k` of it or none, and can write its
  -- own. The server's `recv_file` and the client's `send_file`, with the message received before it, each
  -- hear exactly the list of messages and bytes that the other is shown to send; no call fails, and
  -- `sendfile` moves all it is asked for. Then both return 1: the server sends `k`, the client sends the
  -- size of the file and its bytes from `k` on, the server's file is the whole file afterwards, and no
  -- other file of it has changed.
  pub puts-whole :
      (server client : Files) (stored path : Text) (at_server at_client : Link) (unread : Message)
      (most n : ℕ)
      → client.content path ≡ some file
      → Target server stored k file
      → at_client.send_results 0 ≡ pos 1
      → at_client.sendfile_results 0 ≡ some most
      → length file ≤ most
      → at_server.send_results 0 ≡ pos 1
      → Hears from_client at_server.replies n at_server.chunks
      → Hears from_server at_client.replies n at_client.chunks
      → Offered client path unread at_client × Stored (suc n) server stored at_server
  puts-whole server client stored path at_server at_client unread most n e t s f enough s' by_server
        by_client =
      (
        client_lem client path unread at_client most n e s f enough by_client,
        server_lem n server stored at_server t s' by_server,
      )
