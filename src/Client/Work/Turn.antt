-- ===== src/Client/Work/Turn.antt =====
-- What a line at the terminal leads to.
use linux_os_coding.Base.{ℕ, ◌≡◌, ok, Option, none, some, List, Post, arith}
use linux_os_coding.Base.Int.{pos}
use linux_os_coding.Base.Text.{Text, fill}
use linux_os_coding.Server.Account.{split_dollar}
use linux_os_coding.Wire.{Files}
use linux_os_coding.Client.{Command}
use linux_os_coding.Client.Parse.{terminated}
use linux_os_coding.Client.Login.Sent.{NoDollar, split-join}
use linux_os_coding.Client.Work.{request}

-- The server finds the path in the request, and something behind it.
unfoldable pub Announces : Text → Option Text → Type 0
Announces path none = Unit
Announces path (some text) = (code : Text) × (split_dollar text ≡ ok (path, code))

-- A request of `puts` that is built without undefined behaviour and is not given up is split by the
-- server at the end of the path, if the path has no `$`.
pub request-split :
    (md5 : Text → Text) (room : ℕ) (reads : Text → List (Option Text)) (fs : Files)
    (client : Command)
    → client.id ≡ pos 5
    → NoDollar client.option
    → Post (Announces client.option) (request md5 room reads fs client)
unfolding request Announces terminated fill
request-split md5 room reads fs client e h = grind (arith, e, h, split-join)
