-- ===== src/Server.antt =====
-- NET_DISK_TASK/SERVER: the state that the server's functions share.
pub mod Log
pub mod Table
pub mod Database
pub mod Path
pub mod Shell
pub mod Account
pub mod Worker
pub mod Transfer
pub mod FileTask
pub mod Loop
pub mod Exit
pub mod Connection
pub mod Start
mod Tests
use linux_os_coding.Base.{ℕ, Bool, List, ◌≡◌}
use linux_os_coding.Base.Int.{ℤ}
use linux_os_coding.Base.Text.{Text}
use Table.{ClientFd}

-- `TCP_protocol_t`.
pub record Message : Type 0 where
  pub len : ℤ
  pub order : ℤ
  pub file_size : ℤ
  pub buffer : Text

-- What a shell handler reads and writes of `server_t`, with the database behind its connection and
-- the lines of the log file.
pub record World (Db : Type 0) : Type 0 where
  pub db : Db
  pub clients : List ClientFd
  pub log : List Text
