-- ===== src/Chat/Turn.antt =====
-- The turn of one client in the walk, where its connection is open.
use linux_os_coding.Base.{
  ℕ, ◌<◌, ◌≡◌, refl, sym, Bool, true, false, not, ◌&&◌, ◌||◌, Run, ok, Option, none, some, List, [],
  ◌∷◌, ◌++◌, append-nil, length, length-append, is_empty, arith, ltb, if◌then◌else◌, Bool-cases,
  inl, inr,
}
use linux_os_coding.Base.Text.{Text, fill-ok}
use linux_os_coding.Base.Int.{ℤ}
use linux_os_coding.Memory.{Ptr, write, update-ok}
use linux_os_coding.LinkList.{cell}
use linux_os_coding.LinkList.Shape.{Cells, IsList}
use linux_os_coding.LinkList.Delete.{first}
use linux_os_coding.Chat.{
  Client, Chat, Recv, closed, failed, bytes, text_of, buffer, send_text, with_name, on_text,
  on_receive, serve,
}
use linux_os_coding.Chat.Clients.{middle_node, renamed-IsList, fds_of, copies, send_text-copies}

-- What a client has sent, up to its first zero.
abbrev pub said : Recv → Text
said closed = []
said failed = []
said (bytes s) = text_of s

-- The connection is open, the text ends in the array, and a first text has room in the name.
abbrev pub quiet : Client → Recv → Bool
quiet d closed = false
quiet d failed = true
quiet d (bytes s) =
    ltb (length (text_of s)) 128 && (not (is_empty d.name) || ltb (length (text_of s)) 20)

module _ (ready : ℤ → Option Recv) where
  abbrev pub AllQuiet : Cells Client → Type 0
  AllQuiet [] = Unit
  AllQuiet ((q, d) ∷ xs) =
      (elim (ready d.client_fd) [ none ↦ true | some r ↦ quiet d r ] ≡ true)
      × (length d.name < 20)
      × AllQuiet xs

  -- The first text of a client is its name.
  abbrev pub named : Client → Option Recv → Client
  named d none = d
  named d (some r) = if is_empty d.name then with_name d (said r) else d

  abbrev pub all_named : Cells Client → Cells Client
  all_named [] = []
  all_named ((q, d) ∷ xs) = (q, named d (ready d.client_fd)) ∷ all_named xs

  -- Every further text goes to all the others, behind the name.
  abbrev pub delivery : List ℤ → Client → Option Recv → List (ℤ × Text)
  delivery fds d none = []
  delivery fds d (some r) =
      if is_empty d.name then [] else copies (some d.client_fd) (d.name ++ b':' ∷ said r) fds

  abbrev pub deliveries : List ℤ → Cells Client → List (ℤ × Text)
  deliveries fds [] = []
  deliveries fds ((q, d) ∷ xs) = delivery fds d (ready d.client_fd) ++ deliveries fds xs

-- What the turn of the client `d` at `q` leaves.
abbrev pub Turn :
    Chat → Cells Client → (q : Ptr) → Client → Cells Client → List (ℤ × Text) → Run Chat → Type 0
Turn s xs q d' ys added run =
    (s' : Chat) × (run ≡ ok s')
    × IsList s'.heap s'.ends (xs ++ (q, d') ∷ ys)
    × (s'.ends ≡ s.ends)
    × (s'.watched ≡ s.watched)
    × (s'.sent ≡ s.sent ++ added)

module _ (fuel : ℕ) (s : Chat) (xs : Cells Client) (q : Ptr) (d : Client) (ys : Cells Client)
    (is : IsList s.heap s.ends (xs ++ (q, d) ∷ ys))
    (enough : length (xs ++ (q, d) ∷ ys) < fuel) where
  first_text :
      (buff : Text)
      → is_empty d.name ≡ true
      → length buff < 20
      → on_text fuel q d buff s
        ≡ ok (record s { heap = write s.heap q (some (cell (some (with_name d buff)) (first ys))) })
  unfolding on_text
  first_text buff e room =
      let (nq, hq) = middle_node s.heap s.ends.head q none d xs ys is.linked in
      ground (
        arith,
        e,
        fill-ok 20 buff room,
        update-ok s.heap q nq hq (λ n. record n { item = some (with_name d buff) }),
      )

  further_text :
      (buff : Text) (sent : List (ℤ × Text))
      → is_empty d.name ≡ false
      → length (d.name ++ b':' ∷ buff) < 150
      → send_text fuel s.ends.head (some d.client_fd) (d.name ++ b':' ∷ buff) s.heap s.sent
        ≡ ok sent
      → on_text fuel q d buff s ≡ ok (record s { sent = sent })
  unfolding on_text
  further_text buff sent e room run =
      ground (arith, e, fill-ok 150 (d.name ++ b':' ∷ buff) room, run)

  unnamed-Turn :
      (buff : Text)
      → is_empty d.name ≡ true
      → length buff < 20
      → Turn s xs q (with_name d buff) ys [] (on_text fuel q d buff s)
  unnamed-Turn buff e room = (
    record s { heap = write s.heap q (some (cell (some (with_name d buff)) (first ys))) },
    first_text buff e room,
    renamed-IsList s.heap s.ends q d (with_name d buff) xs ys is,
    refl,
    refl,
    sym (append-nil s.sent),
  )

  named-Turn :
      (buff : Text)
      → is_empty d.name ≡ false
      → length d.name < 20
      → length buff < 128
      → Turn s xs q d ys
          (copies (some d.client_fd) (d.name ++ b':' ∷ buff) (fds_of (xs ++ (q, d) ∷ ys)))
          (on_text fuel q d buff s)
  named-Turn buff e short room =
      let text = d.name ++ b':' ∷ buff in
      let added = copies (some d.client_fd) text (fds_of (xs ++ (q, d) ∷ ys)) in
      (
        record s { sent = s.sent ++ added },
        further_text buff (s.sent ++ added) e (omega (arith, length-append d.name (b':' ∷ buff))) (
            send_text-copies (some d.client_fd) text fuel s.heap s.ends.head none
              (xs ++ (q, d) ∷ ys) s.sent is.linked enough),
        is,
        refl,
        refl,
        refl,
      )

  -- With what `on_receive` has put into `buff`.
  text-Turn :
      (buff : Text)
      → length d.name < 20
      → length buff < 128
      → (not (is_empty d.name) || ltb (length buff) 20) ≡ true
      → Turn s xs q
          (if is_empty d.name then with_name d buff else d)
          ys
          (if is_empty d.name
            then []
            else copies (some d.client_fd) (d.name ++ b':' ∷ buff) (fds_of (xs ++ (q, d) ∷ ys)))
          (on_text fuel q d buff s)
  text-Turn buff short room fits = elim (Bool-cases (is_empty d.name)) [
    | inl e ↦ rw e (unnamed-Turn buff e (ground (arith, e, fits)))
    | inr e ↦ rw e (named-Turn buff e short room)
  ]

  buffer_bytes :
      (t : Text)
      → quiet d (bytes t) ≡ true
      → (buffer (bytes t) ≡ ok (text_of t)) × (length (text_of t) < 128)
  unfolding buffer
  buffer_bytes t e = ground arith

  quiet_room :
      (t : Text)
      → quiet d (bytes t) ≡ true
      → (not (is_empty d.name) || ltb (length (text_of t)) 20) ≡ true
  quiet_room t e = ground arith

  receive-Turn :
      (ready : ℤ → Option Recv) (r : Recv)
      → length d.name < 20
      → quiet d r ≡ true
      → Turn s xs q
          (named ready d (some r))
          ys
          (delivery ready (fds_of (xs ++ (q, d) ∷ ys)) d (some r))
          (on_receive fuel q d r s)
  unfolding on_receive
  receive-Turn ready closed short e = ground arith
  receive-Turn ready failed short e =
      unfold buffer in text-Turn [] short (omega arith) (ground arith)
  receive-Turn ready (bytes t) short e =
      let (stored, room) = buffer_bytes t e in
      rw stored (text-Turn (text_of t) short room (quiet_room t e))

  pub serve-Turn :
      (ready : ℤ → Option Recv) (o : Option Recv)
      → ready d.client_fd ≡ o
      → length d.name < 20
      → elim o [ none ↦ true | some r ↦ quiet d r ] ≡ true
      → Turn s xs q
          (named ready d o)
          ys
          (delivery ready (fds_of (xs ++ (q, d) ∷ ys)) d o)
          (serve fuel ready q d s)
  unfolding serve
  serve-Turn ready none e short fine =
      rw (e, serve) (s, refl, is, refl, refl, sym (append-nil s.sent))
  serve-Turn ready (some r) e short fine = rw (e, serve) (receive-Turn ready r short fine)
