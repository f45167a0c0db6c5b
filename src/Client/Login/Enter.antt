-- ===== src/Client/Login/Enter.antt =====
-- A login that is typed without a mistake.
use linux_os_coding.Base.{
  ℕ, zero, suc, ◌-◌, ◌<◌, ◌≤◌, ◌≡◌, refl, ap, ◌∙◌, Bool, true, false, not, ◌&&◌, ok, some, [], ◌∷◌,
  ◌++◌, length, length-append, drop, arith, ◌==◌,
}
use linux_os_coding.Base.Int.{ℤ, pos, leb_ℤ}
use linux_os_coding.Base.Text.{Text, codes, fill-ok, str_eq, at, c_string, ends_line}
use linux_os_coding.Server.{Message}
use linux_os_coding.Wire.{Link, send_message, recv_message}
use linux_os_coding.Client.Parse.Words.{Every, zeros}
use linux_os_coding.Client.Login.{
  Login, type_in, store, prompts, zeros20, login_message, answer, login_round, login_loop,
  user_login, choose, work_of, clear_out_stdin, returned,
}

-- A byte of a line: neither its end nor NUL.
abbrev pub plain : ℕ → Bool
plain c = not (ends_line c) && not (c == 0)

type_in-line :
    (room : ℕ) (word rest : Text)
    → Every plain word
    → length word ≤ room
    → type_in room (word ++ b'\n' ∷ rest) ≡ (word, rest)
unfolding type_in
type_in-line room [] rest h le = refl
type_in-line zero (c ∷ word) rest h le = absurd (omega arith)
type_in-line (suc k) (c ∷ word) rest (hc, h) le =
    ground (arith, hc, type_in-line k word rest h (omega arith))

c_string-word : (word more : Text) → Every plain word → c_string (word ++ 0 ∷ more) ≡ ok word
unfolding c_string
c_string-word [] more h = refl
c_string-word (c ∷ word) more (hc, h) = ground (arith, hc, c_string-word word more h)

drop-zeros : (n m : ℕ) → n < m → drop n (zeros m) ≡ 0 ∷ zeros (m - n - 1)
drop-zeros n zero h = absurd (omega arith)
drop-zeros zero (suc m) h = ap (λ k. 0 ∷ zeros k) (omega arith)
drop-zeros (suc n) (suc m) h = drop-zeros n m (omega arith) ∙ ap (λ k. 0 ∷ zeros k) (omega arith)

c_string-store :
    (word : Text) → Every plain word → length word < 20 → c_string (store word zeros20) ≡ ok word
unfolding store
c_string-store word h short =
    ap (λ t. c_string (word ++ t)) (drop-zeros (length word) 20 short) ∙ c_string-word word _ h

-- The arrays after the first round.
abbrev pub typed_in : Text → Text → Login
typed_in name code = record { user_name = store name zeros20; code = store code zeros20 }

prompts-line :
    (u : Login) (name code : Text)
    → u ≡ record { user_name = zeros20; code = zeros20 }
    → Every plain name
    → Every plain code
    → length name < 20
    → length code < 20
    → prompts u (b'\n' ∷ (name ++ b'\n' ∷ (code ++ b'\n' ∷ []))) ≡ (typed_in name code, [])
unfolding prompts clear_out_stdin
prompts-line u name code e hn hc sn sc = rw (
  e,
  type_in-line 20 name (code ++ b'\n' ∷ []) hn (omega arith),
  type_in-line 20 code [] hc (omega arith),
)

starts : (c : ℕ) (word array : Text) → plain c ≡ true → (at (store (c ∷ word) array) 0 == 0) ≡ false
unfolding store
starts c word array h = ground (arith, h)

sent_message :
    (m : Message) (order : ℤ) (name code : Text)
    → Every plain name
    → Every plain code
    → length name < 20
    → length code < 20
    → login_message m order (typed_in name code)
      ≡ ok (record m {
        order = order;
        file_size = pos 0;
        len = pos (length (name ++ b'$' ∷ code));
        buffer = name ++ b'$' ∷ code;
      })
unfolding login_message
sent_message m order name code hn hc sn sc = rw (
  c_string-store name hn sn,
  c_string-store code hc sc,
  fill-ok 1000 (name ++ b'$' ∷ code) (omega (arith, length-append name (b'$' ∷ code))),
)

answer-success :
    (u : Login) (m : Message) (typed : Text) (l : Link) (reply : Message)
    → l.replies 0 ≡ (pos 1, reply)
    → reply.order ≡ pos 100
    → reply.buffer ≡ codes "success"
    → answer u m typed l ≡ returned (pos 1) u (recv_message m l).2
unfolding answer recv_message str_eq
answer-success u m typed l reply got known good = rw (got, known, good)

-- What the round sends, and the link after it.
abbrev first_message : Text → Text → Message
first_message name code = record {
  len = pos (length (name ++ b'$' ∷ code));
  order = pos 100;
  file_size = pos 0;
  buffer = name ++ b'$' ∷ code;
}

abbrev after : Message → Link → Link
after m l = (recv_message m (send_message m l).1).2

-- A user types 1, a line with a name and a line with a code, both of 1 to 19 bytes. If the message
-- leaves whole and the reply comes whole, with the order of a login and the text "success", then
-- `user_login` returns 1 in its first round, with the name in its array.
pub user_login-returns :
    (k : ℕ) (len order file_size : ℤ) (l : Link) (c d : ℕ) (name code : Text) (reply : Message)
    → Every plain (c ∷ name)
    → Every plain (d ∷ code)
    → length (c ∷ name) < 20
    → length (d ∷ code) < 20
    → l.send_results 0 ≡ pos 1
    → l.replies 0 ≡ (pos 1, reply)
    → reply.order ≡ pos 100
    → reply.buffer ≡ codes "success"
    → (u : Login) × (l' : Link) × (user_login
          (suc k)
          len
          order
          file_size
          (b'1' ∷ b'\n' ∷ (c ∷ (name ++ b'\n' ∷ (d ∷ (code ++ b'\n' ∷ [])))))
          l
        ≡ ok (some (pos 1, u, l')))
      × (c_string u.user_name ≡ ok (c ∷ name))
unfolding user_login login_loop login_round choose work_of
user_login-returns k len order file_size l c d name code reply hn hc sn sc sent got known good = (
  typed_in (c ∷ name) (d ∷ code),
  after (first_message (c ∷ name) (d ∷ code)) l,
  rw (
    typed,
    starts c name zeros20 hn.0,
    starts d code zeros20 hc.0,
    typed,
    sent_message start (pos 100) (c ∷ name) (d ∷ code) hn hc sn sc,
    leaves,
    answered,
    login_loop,
    login_round,
  ),
  c_string-store (c ∷ name) hn sn,
)
  where
    start : Message
    start = record { len = len; order = order; file_size = file_size; buffer = [] }

    first : Message
    first = first_message (c ∷ name) (d ∷ code)

    typed :
        prompts
          (record { user_name = zeros20; code = zeros20 })
          (b'\n' ∷ (c ∷ (name ++ b'\n' ∷ (d ∷ (code ++ b'\n' ∷ [])))))
        ≡ (typed_in (c ∷ name) (d ∷ code), [])
    typed = prompts-line _ (c ∷ name) (d ∷ code) refl hn hc sn sc

    leaves : leb_ℤ (send_message first l).0 (pos 0) ≡ false
    leaves = unfold send_message in rw sent refl

    answered :
        answer (typed_in (c ∷ name) (d ∷ code)) first [] (send_message first l).1
        ≡ returned (pos 1) (typed_in (c ∷ name) (d ∷ code)) (after first l)
    answered =
        unfold send_message in
        answer-success (typed_in (c ∷ name) (d ∷ code)) first [] (send_message first l).1 reply got
          known good
