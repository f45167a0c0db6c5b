-- ===== src/Client.antt =====
-- NET_DISK_TASK/CLIENT: the program at the terminal.
pub mod Parse
pub mod Login
pub mod Transfer
pub mod Work
mod Tests
use linux_os_coding.Base.Int.{ℤ}
use linux_os_coding.Base.Text.{Text}

-- `client_command_t`.
pub record Command : Type 0 where
  pub id : ℤ
  pub option : Text
