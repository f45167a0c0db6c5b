-- ===== src/Client/Login.antt =====
-- `user_login` of NET_DISK_TASK/CLIENT/src/client.c. What is typed is a list of bytes that ends with
-- the input; `c` is a signed `char`, so the byte 255 is read as EOF too.
pub mod Sent
pub mod Enter
use linux_os_coding.Base.{
  ℕ, zero, suc, ◌+◌, Bool, true, false, ◌||◌, Run, ok, fault, ◌>>=◌, Option, none, some, List, [],
  ◌∷◌, ◌++◌, length, drop, is_empty, ltb, ◌==◌, if◌then◌else◌,
}
use linux_os_coding.Base.Int.{ℤ, pos, negsuc, eqb_ℤ, leb_ℤ}
use linux_os_coding.Base.Text.{Text, codes, str_eq, fill, at, ends_line, c_string}
use linux_os_coding.Server.{Message}
use linux_os_coding.Wire.{Link, send_message, recv_message}

-- `while((c = getchar()) == '\n' || c == EOF)`: `none` at the end of the input, where it never ends.
unfoldable pub choose : Text → Option (ℕ × Text)
choose [] = none
choose (c ∷ typed) = elim (ends_line c) [ true ↦ choose typed | false ↦ some (c, typed) ]

-- `clear_out_stdin`.
unfoldable pub clear_out_stdin : Text → Text
clear_out_stdin [] = []
clear_out_stdin (c ∷ typed) = elim (ends_line c) [ true ↦ typed | false ↦ clear_out_stdin typed ]

-- The loop that reads a name or a code into an array of 20 bytes, `room` of them left: the bytes it
-- stores, and the rest of the input. The byte that finds no room is lost.
unfoldable pub type_in : (room : ℕ) → Text → Text × Text
type_in room [] = ([], [])
type_in room (c ∷ typed) = elim (ends_line c) [
  | true ↦ ([], typed)
  | false ↦ elim room [
    | zero ↦ ([], typed)
    | suc k ↦ let (word, rest) = type_in k typed in (c ∷ word, rest)
  ]
]

-- The array after the loop: the bytes behind those stored stay as they are.
unfoldable pub store : Text → (array : Text) → Text
store word array = word ++ drop (length word) array

-- The two arrays, as they stand between two rounds.
pub record Login : Type 0 where
  pub user_name : Text
  pub code : Text

-- The work id of a choice: `COMMAND_LOGIN` for 1, `COMMAND_REGISTER` for 2.
unfoldable pub work_of : ℕ → Option ℤ
work_of c = if c == b'1' then some (pos 100) else if c == b'2' then some (pos 101) else none

-- The two prompts.
unfoldable pub prompts : Login → Text → Login × Text
prompts u typed =
    let (name, rest) = type_in 20 (clear_out_stdin typed) in
    let (code, rest') = type_in 20 rest in
    (record { user_name = store name u.user_name; code = store code u.code }, rest')

-- The message that a round sends.
unfoldable pub login_message : Message → ℤ → Login → Run Message
login_message m order u = do
  name ← c_string u.user_name
  code ← c_string u.code
  buffer ← fill 1000 (name ++ b'$' ∷ code)
  ok (record m { order = order; file_size = pos 0; len = pos (length buffer); buffer = buffer })

-- What a round ends in: another round, the result of `user_login`, or an input that is used up.
pub data Round : Type 0 where
  again : Login → Message → Text → Link → Round
  returned : ℤ → Login → Link → Round
  blocked : Round

-- The reply, once the message has left.
unfoldable pub answer : Login → Message → Text → Link → Round
answer u m typed l =
    let (r, m', l') = recv_message m l in
    if leb_ℤ r (pos 0)
    then returned (negsuc 0) u l'
    else if eqb_ℤ m'.order (pos 100) || eqb_ℤ m'.order (pos 101)
    then (if str_eq m'.buffer (codes "success") then returned (pos 1) u l' else again u m' typed l')
    else again u m' typed l'

-- One turn of the loop.
unfoldable pub login_round : Login → Message → Text → Link → Run Round
login_round u m typed l = elim (choose typed) [
  | none ↦ ok blocked
  | some (c, rest) ↦ elim (work_of c) [
    | none ↦ ok (again u m (clear_out_stdin rest) l)
    | some order ↦
        let (u', rest') = prompts u rest in
        elim (at u'.user_name 0 == 0 || at u'.code 0 == 0) [
          | true ↦ ok (again u' (record m { order = order }) rest' l)
          | false ↦ do
            m' ← login_message m order u'
            let (r, l') = send_message m' l
            ok (if leb_ℤ r (pos 0) then returned (negsuc 0) u' l' else answer u' m' rest' l')
        ]
  ]
]

-- The loop: `none` where the fuel or the input is used up.
unfoldable pub login_loop : ℕ → Login → Message → Text → Link → Run (Option (ℤ × Login × Link))
login_loop zero u m typed l = ok none
login_loop (suc k) u m typed l = elim (login_round u m typed l) [
  | fault ↦ fault
  | ok blocked ↦ ok none
  | ok (returned r u' l') ↦ ok (some (r, u', l'))
  | ok (again u' m' typed' l') ↦ login_loop k u' m' typed' l'
]

abbrev pub zeros20 : Text
zeros20 = 0 ∷ 0 ∷ 0 ∷ 0 ∷ 0 ∷ 0 ∷ 0 ∷ 0 ∷ 0 ∷ 0 ∷ 0 ∷ 0 ∷ 0 ∷ 0 ∷ 0 ∷ 0 ∷ 0 ∷ 0 ∷ 0 ∷ 0 ∷ []

-- `len`, `order` and `file_size` are whatever the stack holds.
unfoldable pub user_login :
    (fuel : ℕ) → (len order file_size : ℤ) → (typed : Text) → Link → Run (Option (ℤ × Login × Link))
user_login fuel len order file_size typed l =
    let m : Message = record { len = len; order = order; file_size = file_size; buffer = [] } in
    let u : Login = record { user_name = zeros20; code = zeros20 } in login_loop fuel u m typed l
