-- ===== src/Server/Start/Tests.antt =====
-- Starts of the server.
use linux_os_coding.Base.{◌≡◌, refl, Bool, true, false, ok, fault, ◌>>=◌, [], arith}
use linux_os_coding.Base.Int.{pos}
use linux_os_coding.Base.Text.{Text, codes, fill, c_string, atoi}
use linux_os_coding.Server.Connection.{closed, database_init, database_login, database_logout}
use linux_os_coding.Server.Exit.{server_start}
use linux_os_coding.Server.Start.{split_line, readline, server_init, boot}
use linux_os_coding.Server.Start.Config.{boot-config, started}

abbrev connects : Text → Text → Text → Bool
connects user code name = true

-- The file that stands in the repository, with a port of four digits.
repository_conf : boot 24 connects true false (codes "192.168.92.128\n2000\n8\n") ≡ fault
unfolding boot readline split_line c_string atoi server_init database_init database_login fill
    server_start
repository_conf = refl

boot-config_example :
    boot 24 connects true false (codes "127.0.0.1\n80\n8\n")
    ≡ ok (record {
      started = started 24 connects true false;
      workers = (2, 6);
      address = codes "127.0.0.1";
      port = pos 80;
    })
unfolding server_start atoi
boot-config_example =
    boot-config 24 connects true false (codes "127.0.0.1") (codes "80") (codes "8") [] 7 80
      (
        refl,
        refl,
        (
          refl,
          refl,
          (
            refl,
            refl,
            (refl, refl, (refl, refl, (refl, refl, (refl, refl, (refl, refl, (refl, refl, tt)))))),
          ),
        ),
      )
      (refl, refl, (refl, refl, tt)) (refl, refl, tt) (omega arith) (omega arith) refl refl

opened_and_closed :
    (database_init 8 (codes "root") (codes "love") (codes "disk") >>= λ db.
    database_login connects false db >>= λ r. database_logout r.1)
    ≡ ok (pos 1, closed)
unfolding database_init database_login database_logout fill
opened_and_closed = refl
