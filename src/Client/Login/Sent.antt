-- ===== src/Client/Login/Sent.antt =====
-- What the client asks a server to sign in, and when it believes that it is signed in.
use linux_os_coding.Base.{
  ℕ, zero, suc, ◌+◌, ◌<◌, ◌≡◌, refl, ap, sym, append_assoc, Bool, true, false, ◌||◌, Run, ok, fault,
  Option, none, some, [], ◌∷◌, ◌++◌, length, length-append, drop, arith, ◌⊎◌, inl, inr, ◌==◌,
  Bool-cases, Option-cases, Post, Post-mono, each, if◌then◌else◌,
}
use linux_os_coding.Base.Int.{ℤ, pos, negsuc, leb_ℤ}
use linux_os_coding.Base.Text.{Text, codes, fill-ok, str_eq_iff, at, c_string}
use linux_os_coding.Server.{Message}
use linux_os_coding.Server.Account.{split_dollar, credentials}
use linux_os_coding.Wire.{Link, later, send_message, recv_message}
use linux_os_coding.Client.Login.{
  Login, Round, again, returned, blocked, store, login_message, answer, login_round, login_loop,
  user_login, type_in, work_of, choose, prompts, clear_out_stdin,
}

-- No byte of the text is the `$` that separates.
abbrev pub NoDollar : Text → Type 0
NoDollar [] = Unit
NoDollar (c ∷ s) = ((c == b'$') ≡ false) × NoDollar s

pub split-join :
    (name code : Text) → NoDollar name → split_dollar (name ++ b'$' ∷ code) ≡ ok (name, code)
unfolding split_dollar
split-join [] code h = refl
split-join (c ∷ name) code (hc, h) = rw (hc, split-join name code h, split_dollar)

-- A message that the client sends for a name and a code of less than 20 bytes, the name without `$`,
-- carries the work id of the choice, and the server's `credentials` reads the same name and code
-- from it.
pub login_message-credentials :
    (m : Message) (order : ℤ) (u : Login) (name code : Text)
    → c_string u.user_name ≡ ok name
    → c_string u.code ≡ ok code
    → NoDollar name
    → length name < 20
    → length code < 20
    → (m' : Message) × (login_message m order u ≡ ok m')
      × (m'.order ≡ order)
      × (credentials m'.buffer ≡ ok (name, code))
unfolding login_message credentials
login_message-credentials m order u name code en ec plain short short' = (
  record m {
    order = order;
    file_size = pos 0;
    len = pos (length (name ++ b'$' ∷ code));
    buffer = name ++ b'$' ∷ code;
  },
  rw (en, ec, fill-ok 1000 (name ++ b'$' ∷ code) (omega (arith, length-append name (b'$' ∷ code)))),
  refl,
  rw (split-join name code plain, fill-ok 20 name short, fill-ok 20 code short'),
)

keep_tail : (s t : Text) → s ++ drop (length s) (s ++ t) ≡ s ++ t
keep_tail [] t = refl
keep_tail (c ∷ s) t = ap (λ r. c ∷ r) (keep_tail s t)

store-stale :
    (short long : Text) (array : Text)
    → store short (store (short ++ long) array) ≡ store (short ++ long) array
unfolding store
store-stale short long array =
    rw (append_assoc short long (drop (length (short ++ long)) array), keep_tail short _)

-- The arrays are not cleared between two rounds: where the name typed now is a beginning of the name
-- of the round before, the array keeps the old
-- name.
pub prompts-stale :
    (u : Login) (typed long array : Text)
    → u.user_name ≡ store ((type_in 20 (clear_out_stdin typed)).0 ++ long) array
    → (prompts u typed).0.user_name ≡ u.user_name
unfolding prompts
prompts-stale u typed long array e =
    rw e (store-stale (type_in 20 (clear_out_stdin typed)).0 long array)

-- What came of the n-th reply.
unfoldable pub Granted : Link → ℕ → Type 0
Granted l n = ((l.replies n).0 ≡ pos 1) × ((l.replies n).1.buffer ≡ codes "success")

-- `recv_n` returns 1, 0 or -1.
abbrev pub Regular : Link → Type 0
Regular l = (n : ℕ) → ((l.replies n).0 ≡ pos 1) ⊎ (leb_ℤ ((l.replies n).0) (pos 0) ≡ true)

Judged : Link → Round → Type 0
Judged l (again u m typed l') = (k : ℕ) × ((n : ℕ) → l'.replies n ≡ l.replies (k + n))
Judged l (returned r u l') = (r ≡ negsuc 0) ⊎ ((r ≡ pos 1) × Granted l 0)
Judged l blocked = Unit

next :
    (u : Login) (m : Message) (typed : Text) (l : Link)
    → Judged l (again u m typed (record l { replies = later l.replies }))
unfolding Judged
next u m typed l = (1, λ n. ap l.replies (omega arith))

verdict :
    (known good : Bool) (u : Login) (m : Message) (typed : Text) (l : Link)
    → (good ≡ true → Granted l 0)
    → let l' = record l { replies = later l.replies } in
      Judged l (
        if known
        then (if good then returned (pos 1) u l' else again u m typed l')
        else again u m typed l')
unfolding Judged
verdict false good u m typed l h = next u m typed l
verdict true false u m typed l h = next u m typed l
verdict true true u m typed l h = inr (refl, h refl)

answer-Judged :
    (u : Login) (m : Message) (typed : Text) (l : Link) → Regular l → Judged l (answer u m typed l)
unfolding answer Judged recv_message Granted
answer-Judged u m typed l h = elim (h 0) [
  | inl e ↦ rw e (verdict _ _ u _ typed l (λ g. (e, (str_eq_iff _ _).0 g)))
  | inr e ↦ rw e (inl refl)
]

refused :
    (b : Bool) (u u' : Login) (l l' : Link) (x : Round)
    → Judged l x
    → Judged l (if b then returned (negsuc 0) u l' else x)
unfolding Judged
refused true u u' l l' x h = inl refl
refused false u u' l l' x h = h

stay : (u : Login) (m : Message) (typed : Text) (l : Link) → Judged l (again u m typed l)
unfolding Judged
stay u m typed l = (0, λ n. ap l.replies (omega arith))

asked-Judged :
    (u : Login) (m : Message) (typed : Text) (l : Link)
    → Regular l
    → let (r, l') = send_message m l in
      Judged l (if leb_ℤ r (pos 0) then returned (negsuc 0) u l' else answer u m typed l')
unfolding send_message Judged Granted
asked-Judged u m typed l h =
    refused (leb_ℤ (send_message m l).0 (pos 0)) u u l (send_message m l).1
      (answer u m typed (send_message m l).1) (answer-Judged u m typed (send_message m l).1 h)

abbrev empty : Login → Bool
empty u = at u.user_name 0 == 0 || at u.code 0 == 0

round-Judged :
    (u : Login) (m : Message) (typed : Text) (l : Link)
    → Regular l
    → Post (Judged l) (login_round u m typed l)
unfolding login_round Judged
round-Judged u m typed l h = elim (Option-cases (choose typed)) [
  | inl e ↦ rw (e, login_round) tt
  | inr (p, e) ↦ elim (Option-cases (work_of p.0)) [
    | inl e' ↦ rw (e, e', login_round) (stay u m (clear_out_stdin p.1) l)
    | inr (order, e') ↦ elim (Bool-cases (empty (prompts u p.1).0)) [
      | inl e'' ↦
          rw (e, e', e'', login_round)
            (stay (prompts u p.1).0 (record m { order = order }) (prompts u p.1).1 l)
      | inr e'' ↦
          rw (e, e', e'', login_round)
            (each (Judged l) (login_message m order (prompts u p.1).0) _
              (λ m'. asked-Judged (prompts u p.1).0 m' (prompts u p.1).1 l h))
    ]
  ]
]

unfoldable pub Success : Link → Option (ℤ × Login × Link) → Type 0
Success l none = Unit
Success l (some (r, u, l')) = (r ≡ negsuc 0) ⊎ ((r ≡ pos 1) × (n : ℕ) × Granted l n)

later_Success :
    (l l' : Link) (k : ℕ)
    → ((n : ℕ) → l'.replies n ≡ l.replies (k + n))
    → (o : Option (ℤ × Login × Link)) → Success l' o
    → Success l o
unfolding Success Granted
later_Success l l' k e none h = tt
later_Success l l' k e (some (r, u, l'')) (inl x) = inl x
later_Success l l' k e (some (r, u, l'')) (inr (x, n, g)) = inr (x, k + n, rw (sym (e n)) g)

loop-Success :
    (fuel : ℕ) (u : Login) (m : Message) (typed : Text) (l : Link)
    → Regular l
    → Post (Success l) (login_loop fuel u m typed l)
unfolding login_loop Success Judged
loop-Success zero u m typed l h = tt
loop-Success (suc k) u m typed l h =
    go (loop-Success k) (login_round u m typed l) (round-Judged u m typed l h)
  where
    go :
        ((u : Login) (m : Message) (typed : Text) (l : Link)
          → Regular l
          → Post (Success l) (login_loop k u m typed l))
        → (r : Run Round) → Post (Judged l) r
        → Post (Success l) (elim r [
          | fault ↦ fault
          | ok blocked ↦ ok none
          | ok (returned r u' l') ↦ ok (some (r, u', l'))
          | ok (again u' m' typed' l') ↦ login_loop k u' m' typed' l'
        ])
    go step fault j = tt
    go step (ok blocked) j = tt
    go step (ok (returned r u' l')) (inl x) = inl x
    go step (ok (returned r u' l')) (inr (x, g)) = inr (x, 0, g)
    go step (ok (again u' m' typed' l')) (d, e) =
        Post-mono (Success l') (Success l) (login_loop k u' m' typed' l')
          (step u' m' typed' l' (λ n. rw (e n) (h (d + n)))) (later_Success l l' d e)

-- Where `recv_n` returns 1, 0 or -1, a run of `user_login` that comes to an end returns -1, or it
-- returns 1 and has received a whole message with the text "success".
pub user_login-Success :
    (fuel : ℕ) (len order file_size : ℤ) (typed : Text) (l : Link)
    → Regular l
    → Post (Success l) (user_login fuel len order file_size typed l)
unfolding user_login
user_login-Success fuel len order file_size typed l h = loop-Success fuel _ _ typed l h
