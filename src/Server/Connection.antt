-- ===== src/Server/Connection.antt =====
-- The connection of NET_DISK_TASK/SERVER/src/database_api.c to the MySQL server. Whether the server lets
-- the user in, and whether it knows the character set, are parameters.
use linux_os_coding.Base.{ℕ, Bool, true, false, Run, ok, fault, ◌>>=◌, if◌then◌else◌}
use linux_os_coding.Base.Int.{ℤ, pos, negsuc}
use linux_os_coding.Base.Text.{Text, fill}

-- `database_t`; after `database_logout` its three texts are free.
pub data Handle : Type 0 where
  closed : Handle
  handle : (user_name password database_name : Text) → (connected : Bool) → Handle

-- `calloc(sizeof(p), sizeof(char))` for a pointer `p` asks for 8 bytes; `room` is how many the
-- allocator gives, which may be more.
unfoldable pub database_init : (room : ℕ) → (user_name password database_name : Text) → Run Handle
database_init room user_name password database_name = do
  user_name' ← fill room user_name
  password' ← fill room password
  database_name' ← fill room database_name
  ok (handle user_name' password' database_name' false)

unfoldable pub database_login :
    (connects : Text → Text → Text → Bool) → (knows_utf8 : Bool) → Handle → Run (ℤ × Handle)
database_login connects knows_utf8 closed = fault
database_login connects knows_utf8 (handle user_name password database_name connected) =
    if connects user_name password database_name
    then ok ((if knows_utf8 then pos 1 else negsuc 0), handle user_name password database_name true)
    else ok (negsuc 0, handle user_name password database_name connected)

unfoldable pub database_logout : Handle → Run (ℤ × Handle)
database_logout closed = fault
database_logout (handle user_name password database_name connected) = ok (pos 1, closed)
