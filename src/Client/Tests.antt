-- ===== src/Client/Tests.antt =====
-- The theorems on lines that a user may type.
use linux_os_coding.Base.{
  ◌≡◌, inl, refl, true, ok, some, none, [], arith, Post, if◌then◌else◌, replicate,
}
use linux_os_coding.Base.Int.{pos}
use linux_os_coding.Base.Text.{Text, codes, str_eq, c_string}
use linux_os_coding.Server.{Message}
use linux_os_coding.Server.Account.{credentials}
use linux_os_coding.Socket.{chunk}
use linux_os_coding.Wire.{Link, Files}
use linux_os_coding.Client.{Command}
use linux_os_coding.Client.Login.{Login, login_message, user_login, store, zeros20}
use linux_os_coding.Client.Login.Sent.{Success, login_message-credentials, user_login-Success}
use linux_os_coding.Client.Login.Enter.{user_login-returns}

abbrev none_yet : Command
none_yet = record { id = pos 0; option = [] }

abbrev long_bob : Login
long_bob = record { user_name = store (codes "bobby") zeros20; code = store (codes "pw") zeros20 }

abbrev blank_message : Message
blank_message = record { len = pos 0; order = pos 0; file_size = pos 0; buffer = [] }

login_message-credentials_example :
    (m' : Message) × (login_message blank_message (pos 100) long_bob ≡ ok m')
    × (m'.order ≡ pos 100)
    × (credentials m'.buffer ≡ ok (codes "bobby", codes "pw"))
unfolding c_string store
login_message-credentials_example =
    login_message-credentials blank_message (pos 100) long_bob (codes "bobby") (codes "pw") refl
      refl (refl, (refl, (refl, (refl, (refl, tt))))) (omega arith) (omega arith)

abbrev link : Link
link = record {
  sent = [];
  send_results = λ n. pos 1;
  replies = λ n. (pos 1, record blank_message { order = pos 100; buffer = codes "success" });
  chunks = λ n. chunk (codes "cd");
  sendfile_results = λ n. none;
}

user_login-Success_example :
    Post (Success link) (user_login 3 (pos 0) (pos 0) (pos 0) (codes "1\nbob\npw\n") link)
user_login-Success_example =
    user_login-Success 3 (pos 0) (pos 0) (pos 0) (codes "1\nbob\npw\n") link (λ n. inl refl)

user_login-returns_example :
    (u : Login) × (l' : Link) × (user_login 1 (pos 0) (pos 0) (pos 0) (codes "1\nbob\npw\n") link
      ≡ ok (some (pos 1, u, l')))
    × (c_string u.user_name ≡ ok (codes "bob"))
user_login-returns_example =
    user_login-returns 0 (pos 0) (pos 0) (pos 0) link b'b' b'p' (codes "ob") (codes "w")
      (record blank_message { order = pos 100; buffer = codes "success" })
      (refl, (refl, (refl, tt))) (refl, (refl, tt)) (omega arith) (omega arith) refl refl refl refl

-- A digest that tells only whether there is anything.
abbrev md5 : Text → Text
md5 bytes = replicate 16 171

abbrev files : Files
files = record {
  content = λ p. if str_eq p (codes "f") then some (codes "ab") else none;
  writable = λ p. true;
}

abbrev puts : Command
puts = record { id = pos 5; option = codes "f" }
