-- ===== src/Sendfile/Whole.antt =====
-- Both ends of the transfer together.
use Prim.Native.Nat.{min}
use linux_os_coding.Base.{
  ℕ, ◌<◌, ◌^◌, ◌≡◌, refl, ap, ◌∙◌, Bool, true, inl, inr, lt→ltb, ok, Option, none, some, List, [],
  ◌∷◌, ◌++◌, length, take, drop, replicate, take-all, drop-all, append_assoc, append-nil, arith,
}
use linux_os_coding.Base.Int.{ℤ, pos}
use linux_os_coding.Base.Text.{Text, c_string, fill-ok}
use linux_os_coding.Base.Bytes.{
  int_bytes, le_bytes, length-int_bytes, int_value-int_bytes, length-le_bytes, le_value-le_bytes,
}
use linux_os_coding.Socket.{Answer, Arrival, chunk, send_n}
use linux_os_coding.Socket.Recv.{stream, Alive}
use linux_os_coding.Socket.Send.{send_n-Sent}
use linux_os_coding.Train.{done, train_size}
use linux_os_coding.Train.Received.{over}
use linux_os_coding.Train.Whole.{NoNul, name_in_buffer}
use linux_os_coding.Sendfile.{send_content, message, tran_file, recv_file, off_value, client}
use linux_os_coding.Sendfile.Short.{calls, Written, recv_file-sent}
use linux_os_coding.Sendfile.Received.{recv_n-Next, recv_n-Header}

name_bytes :
    (name : Text)
    → NoNul name
    → length name < 1000
    → c_string (over (replicate 1000 0) name) ≡ ok name
unfolding train_size
name_bytes name h short = name_in_buffer name h short

size_bytes : (n : ℕ) → n < 2 ^ 63 → off_value (over (replicate 8 0) (le_bytes 8 n)) ≡ n
size_bytes n h =
    let gone : drop {A = ℕ} (length (le_bytes 8 n)) (replicate 8 0) ≡ [] =
      drop-all (length (le_bytes 8 n)) (replicate 8 0) (omega (arith, length-le_bytes 8 n)) in
    let value = le_value-le_bytes 8 n (omega (arith, h)) in
    rw (gone, append-nil (le_bytes 8 n), value, lt→ltb n (2 ^ 63) h) refl

has_bytes :
    (bytes : Text) (missing : ℕ) (o : Option (ℤ × Text × List Arrival))
    → Written bytes missing o
    → (r : ℤ) × (left : List Arrival) × (o ≡ some (r, bytes, left))
has_bytes bytes missing none w = absurd w
has_bytes bytes missing (some (r, written, left)) (same, result) =
    (r, left, ap (λ (t : Text). some (r, t, left)) same)

-- Name and size in their messages, then a beginning of the content.
abbrev pub wire_of : (filename : Text) → (st_size : ℕ) → (body : Text) → Text
wire_of filename st_size body = message filename ++ message (le_bytes 8 st_size) ++ body

module _ (opens : Text → Bool) (old : Text → Text) (filename content : Text) (most : ℕ) where
  abbrev pub body : Text
  body = take (min most (length content)) content

  -- The client leaves the file with the name, its beginning replaced by `body`.
  abbrev pub Leaves : (junk : Text) → List Arrival → Type 0
  Leaves junk arrivals =
      (n : ℕ) × ((fuel : ℕ)
        → n < fuel
        → client fuel opens old junk arrivals
          ≡ done (some (filename, body ++ drop (length body) (old filename))))

  client_lem :
      (a tail : List Arrival) (junk : Text)
      → NoNul filename
      → length filename < 1000
      → length content < 2 ^ 63
      → opens filename ≡ true
      → Alive a
      → stream a ≡ wire_of filename (length content) body
      → length junk ≡ 4
      → Leaves junk (a ++ chunk [] ∷ tail)
  unfolding client
  client_lem a tail junk nul short fits opened alive e four =
      let close = chunk [] ∷ tail in
      let size : Text = le_bytes 8 (length content) in
      let eight = length-le_bytes 8 (length content) in
      let (a1, out1, left1, alive1) =
        recv_n-Header close a (length filename) (filename ++ (message size ++ body)) junk alive
          (e
            ∙ append_assoc (message filename) (message size) body
            ∙ append_assoc (int_bytes (pos (length filename))) filename (message size ++ body))
          four in
      let (a2, out2, left2, alive2) =
        recv_n-Next close 1000 a1 filename (message size ++ body) (replicate 1000 0) alive1 left1
          (omega arith) in
      let (a3, out3, left3, alive3) =
        recv_n-Header close a2 (length size) (size ++ body) (int_bytes (pos (length filename)))
          alive2 (left2 ∙ append_assoc (int_bytes (pos (length size))) size body)
          (length-int_bytes (pos (length filename))) in
      let (a4, out4, left4, alive4) =
        recv_n-Next close 8 a3 size body (replicate 8 0) alive3 left3 (omega (arith, eight)) in
      (
        calls a4,
        λ fuel enough.
            let sent =
              recv_file-sent 1000 (length content) (omega arith) tail fuel content most a4 refl
                alive4 left4 enough in
            let (r, left, run) =
              has_bytes body (length content) (recv_file fuel (a4 ++ close) 1000 (length content) 0)
                sent.1 in
            rw
              (
                out1,
                int_value-int_bytes (length filename) (omega arith),
                out2,
                name_bytes filename nul short,
                opened,
                out3,
                int_value-int_bytes (length size) (omega (arith, eight)),
                out4,
                size_bytes (length content) fits,
                run,
              )
              refl,
      )

all_sent :
    (answers rest : List Answer) (buf wire : Text)
    → send_n answers buf ≡ some (pos 1, wire, rest)
    → wire ≡ buf
all_sent answers rest buf wire e =
    let (k, same, cases) = rw e at (send_n-Sent answers buf) in
    elim cases [
      | inl done_all ↦ same ∙ take-all k buf (omega (arith, done_all.1))
      | inr part ↦ absurd (elim part.0 [
        | inl closed ↦ ground (arith, closed)
        | inr broken_off ↦ ground (arith, broken_off)
      ])
    ]

-- The whole transfer of a file of less than 2^63 bytes, with a name of less than 1000 bytes that both sides
-- can open, where both messages of `tran_file` are sent and `sendfile` moves up to `most` bytes:
-- `tran_file` returns 0 with the name, the size and those bytes on the wire. From these bytes, however
-- they are cut and whatever interrupts the calls, and then the end of the stream, and with fuel enough, the
-- client leaves a file of that name that begins with the bytes moved; what a longer old file held behind
-- them is still there.
pub tran_file-Leaves :
    (opens : Text → Bool) (old : Text → Text) (filename content : Text) (most : ℕ)
    (answers answers1 answers2 : List Answer) (wire wire2 : Text) (a tail : List Arrival)
    (junk : Text)
    → send_n answers (message filename) ≡ some (pos 1, wire, answers1)
    → send_n answers1 (message (le_bytes 8 (length content))) ≡ some (pos 1, wire2, answers2)
    → NoNul filename
    → length filename < 1000
    → length content < 2 ^ 63
    → opens filename ≡ true
    → Alive a
    → stream a ≡ wire_of filename (length content) (take (min most (length content)) content)
    → length junk ≡ 4
    → (tran_file filename (length content) true content (some most) answers
        ≡ done (some (pos 0), stream a))
      × Leaves opens old filename content most junk (a ++ chunk [] ∷ tail)
unfolding tran_file send_content train_size
tran_file-Leaves opens old filename content most answers answers1 answers2 wire wire2 a tail junk s1
      s2 nul short fits opened alive e four =
    let w1 = all_sent answers answers1 (message filename) wire s1 in
    let w2 = all_sent answers1 answers2 (message (le_bytes 8 (length content))) wire2 s2 in
    (
      rw (fill-ok train_size filename short, s1, s2, w1, w2, e) refl,
      client_lem opens old filename content most a tail junk nul short fits opened alive e four,
    )
