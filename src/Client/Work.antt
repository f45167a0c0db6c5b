-- ===== src/Client/Work.antt =====
-- `do_user_task` of NET_DISK_TASK/CLIENT/src/client.c and the turn of the loop of `main` of
-- NET_DISK_TASK/CLIENT/src/main.c. What is printed is left out.
pub mod Turn
use linux_os_coding.Base.{
  ℕ, suc, ◌+◌, ◌-◌, Bool, true, false, ◌&&◌, ◌||◌, Run, ok, fault, ◌>>=◌, ◌>>◌, Option, none, some,
  List, [], ◌∷◌, ◌++◌, length, replicate, ltb, ◌==◌, if◌then◌else◌,
}
use linux_os_coding.Base.Int.{ℤ, pos, negsuc, ◌+ℤ◌, eqb_ℤ}
use linux_os_coding.Base.Text.{Text, codes, fill, at}
use linux_os_coding.Server.{Message}
use linux_os_coding.Server.Transfer.{check_io}
use linux_os_coding.Wire.{Link, Files, send_message, recv_message}
use linux_os_coding.Client.{Command}
use linux_os_coding.Client.Parse.{terminated, get_user_order, command_option_size, command_list}
use linux_os_coding.Client.Transfer.{send_file, recv_file, get_md5}

-- What stays over the turns.
pub record Session : Type 0 where
  pub command : Command
  pub files : Files
  pub link : Link

module _ (md5 : Text → Text) (room : ℕ) (reads : Text → List (Option Text)) where
  -- The buffer of the request: the option, for `puts` with `$` and the digest of the file. `none`: the
  -- file cannot be opened. The result of `get_md5` is not looked at.
  unfoldable pub request : Files → Command → Run (Option Text)
  request fs client = do
    option ← terminated command_option_size client.option
    if eqb_ℤ client.id (pos 5)
        then (elim (fs.content option) [
          | none ↦ ok none
          | some _ ↦
              if fs.writable option
              then (do
                (_, code) ← get_md5 md5 room true (reads option)
                text ← fill 1000 (option ++ b'$' ∷ code)
                ok (some text))
              else ok none
        ])
        else ok (some option)

  -- What follows the reply. `client.id + 1` as its order is the server's consent to a transfer. For
  -- `gets` the result of `recv_file` is not looked at.
  unfoldable pub after_reply :
      (fuel : ℕ) → Files → Command → Message → Link → Run (Option (ℤ × Files × Link))
  after_reply fuel fs client message l =
      if (eqb_ℤ client.id (pos 4) || eqb_ℤ client.id (pos 5))
        && eqb_ℤ message.order (client.id +ℤ pos 1)
      then (if eqb_ℤ client.id (pos 4)
          then (do
            path ← fill 512 (codes "./" ++ message.buffer)
            elim (recv_file fuel fs path message l) [
              | none ↦ ok none
              | some (_, fs', _, l') ↦ ok (some (pos 1, fs', l'))
            ])
          else (let (r, _, l') = send_file fs client.option message l in
              ok (some (check_io r (pos 0, fs, l') (negsuc 0, fs, l') (pos 1, fs, l')))))
      else ok (some (pos 1, fs, l))

  -- `len` is whatever the stack holds.
  unfoldable pub do_user_task :
      (fuel : ℕ) → (len : ℤ) → Files → Command → Link → Run (Option (ℤ × Files × Link))
  do_user_task fuel len fs client l = do
    asked ← request fs client
    elim asked [
      | none ↦ ok (some (negsuc 0, fs, l))
      | some text ↦
          let message : Message = record {
            len = len;
            order = client.id;
            file_size = pos 0;
            buffer = text;
          } in
          let (r, l') = send_message message l in
          let (r', message', l'') = recv_message message l' in
          check_io r (ok (some (pos 0, fs, l'))) (ok (some (negsuc 0, fs, l'))) (
            check_io r' (ok (some (pos 0, fs, l''))) (ok (some (negsuc 0, fs, l'')))
              (after_reply fuel fs client message' l''))
    ]

  -- One line of the terminal, `typed` as `read` returns it, of 1000 bytes at most. The `break` after
  -- "server close" leaves the loop over the one event only.
  unfoldable pub turn : (fuel : ℕ) → (len : ℤ) → (typed : Text) → Session → Run (Option Session)
  turn fuel len typed s =
      let buffer = typed ++ replicate (1000 - length typed) 0 in
      let parsed = get_user_order fuel s.command buffer command_list in
      if at buffer 0 == b'\n'
      then ok (some s)
      else if ltb (length typed) 2
      then ok (some s)
      else elim parsed [
        | none ↦ ok none
        | some fault ↦ fault
        | some (ok (r, client)) ↦ elim (eqb_ℤ r (negsuc 0)) [
          | true ↦ ok (some (record s { command = client }))
          | false ↦ do
            done ← do_user_task fuel len s.files client s.link
            ok (elim done [
              | none ↦ none
              | some (_, fs, l) ↦ some (record { command = client; files = fs; link = l })
            ])
        ]
      ]
