-- ===== src/Exchange/Gets.antt =====
-- gets: the server's `send_file` and the client's `recv_file`.
use linux_os_coding.Base.{
  ℕ, suc, List, ◌+◌, ◌-◌, ◌≡◌, ◌≤◌, ◌<◌, refl, ap, ◌∙◌, true, false, some, [], ◌∷◌, ◌++◌, length,
  append_assoc, drop, arith,
}
use linux_os_coding.Base.Int.{ℤ, pos, negsuc, eqb_ℤ, leb_ℤ}
use linux_os_coding.Base.Text.{Text}
use linux_os_coding.Wire.{Link, Files, Packet, whole, raw, later, send_message, recv_message}
use linux_os_coding.Server.{Message}
use linux_os_coding.Server.Transfer as ServerSide
use linux_os_coding.Server.Transfer.{open_target, recv_loop}
use linux_os_coding.Client.Transfer as ClientSide
use linux_os_coding.Exchange.{
  Target, Received, Hears, heard, open_lem, loop-Received, loop-sent, sendfile-rest,
}

-- The message with the size that a side has.
abbrev pub sized : Message → ℕ → Message
sized m n = record m { file_size = pos n }

module _ (file : Text) (k : ℕ) (more : k < length file) (m : Message) where
  -- What the server sends: the size of the file, and its bytes from `k` on.
  abbrev pub from_server : List Packet
  from_server = whole (sized m (length file)) ∷ raw (drop k file) ∷ []

  -- What the client sends: how much it has.
  abbrev pub from_client : List Packet
  from_client = whole (sized m k) ∷ []

  abbrev pub Served : Files → (stored : Text) → Link → Type 0
  Served fs stored l =
      (l' : Link) × (ServerSide.send_file fs stored m l ≡ (pos 1, sized m (length file), l'))
      × (l'.sent ≡ l.sent ++ from_server)

  server_lem :
      (fs : Files) (stored : Text) (l : Link) (most : ℕ)
      → fs.content stored ≡ some file
      → l.send_results 0 ≡ pos 1
      → l.replies 0 ≡ (pos 1, sized m k)
      → l.sendfile_results 0 ≡ some most
      → length file ≤ most
      → Served fs stored l
  unfolding ServerSide.send_file send_message recv_message
  server_lem fs stored l most e s r f enough =
      let first = whole (sized m (length file)) in
      let l1 : Link = record l {
        sent = l.sent ++ first ∷ [];
        send_results = later l.send_results;
        replies = later l.replies;
      } in
      let bigger : leb_ℤ (pos (length file)) (pos k) ≡ false = ground arith in
      let some_bytes : eqb_ℤ (pos (length file - k)) (pos 0) ≡ false = ground arith in
      let no_error : eqb_ℤ (pos (length file - k)) (negsuc 0) ≡ false = ground arith in
      let at_end : k + (length file - k) ≡ length file = omega arith in
      let rest = sendfile-rest k most file l1 f enough in
      (
        record l1 {
          sent = (l.sent ++ first ∷ []) ++ raw (drop k file) ∷ [];
          sendfile_results = later l.sendfile_results;
        },
        rw (e, ServerSide.send_file, s, r, bigger, rest, some_bytes, no_error, at_end) refl,
        append_assoc l.sent (first ∷ []) (raw (drop k file) ∷ []),
      )

  -- `recv_file` with the message that the client has received, `unread` before that.
  abbrev pub Fetched : (fuel : ℕ) → Files → (path : Text) → (unread : Message) → Link → Type 0
  Fetched fuel fs path unread l =
      (fs' : Files) × (l' : Link) × (ClientSide.recv_file fuel fs path (recv_message unread l).1
          (recv_message unread l).2
        ≡ some (pos 1, fs', sized m k, l'))
      × (l'.sent ≡ l.sent ++ from_client)
      × Received fs fs' path file

  client_lem :
      (n : ℕ) (fs : Files) (path : Text) (unread : Message) (l : Link)
      → Target fs path k file
      → l.send_results 0 ≡ pos 1
      → Hears from_server l.replies n l.chunks
      → Fetched (suc n) fs path unread l
  unfolding ClientSide.recv_file send_message
  client_lem n fs path unread l t s (asked, (b, end)) =
      let l1 : Link = record l {
        sent = l.sent ++ whole (sized m k) ∷ [];
        send_results = later l.send_results;
        replies = later l.replies;
      } in
      let (fs1, opened, e, others) = open_lem fs path k file (omega arith) t in
      let (fs', l', run, r) = loop-Received n k path file fs fs1 l1 e others (omega arith) b in
      let bigger : leb_ℤ (pos (length file)) (pos k) ≡ false = ground arith in
      (
        fs',
        l',
        ap (λ (x : ℤ × Message × Link). ClientSide.recv_file (suc n) fs path x.1 x.2)
              (heard unread (sized m (length file)) l asked)
            ∙ rw (opened, ClientSide.recv_file, s, run, bigger) refl,
        loop-sent (suc n) true path k (pos (length file)) (pos 1) fs1 fs' l1 l' run,
        r,
      )

  -- gets: the server has the file, the client fewer bytes, the first `k` of it or none, and can write its
  -- own. The server's `send_file` and the client's `recv_file`, with the message received before it, each
  -- hear exactly the list of messages and bytes that the other is shown to send; no call fails, and
  -- `sendfile` moves all it is asked for. Then both return 1: the server sends the size of the file and
  -- its bytes from `k` on, the client sends `k`, its file is the whole file afterwards, and no other
  -- file has changed.
  pub gets-whole :
      (server client : Files) (stored path : Text) (at_server at_client : Link) (unread : Message)
      (most n : ℕ)
      → server.content stored ≡ some file
      → Target client path k file
      → at_server.send_results 0 ≡ pos 1
      → at_server.sendfile_results 0 ≡ some most
      → length file ≤ most
      → at_client.send_results 0 ≡ pos 1
      → Hears from_client at_server.replies n at_server.chunks
      → Hears from_server at_client.replies n at_client.chunks
      → Served server stored at_server × Fetched (suc n) client path unread at_client
  gets-whole server client stored path at_server at_client unread most n e t s f enough s' by_server
        by_client =
      (
        server_lem server stored at_server most e s by_server.0 f enough,
        client_lem n client path unread at_client t s' by_client,
      )
