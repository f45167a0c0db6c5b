-- ===== src/Server/Start/Config.antt =====
-- What a start makes of a configuration file of three lines.
use linux_os_coding.Base.{
  ℕ, suc, ◌-◌, ◌≤◌, ◌<◌, ◌≡◌, refl, ap, ◌∙◌, Bool, true, false, ◌&&◌, Run, ok, fault, ◌>>=◌, [],
  ◌∷◌, ◌++◌, length, replicate, ltb, if◌then◌else◌, ◌==◌, arith, Bool-cases, ltb→lt, inl, inr,
}
use linux_os_coding.Base.Int.{ℤ, pos}
use linux_os_coding.Base.Text.{Text, codes, ends_line, c_string, atoi, fill, fill-ok, fill-fault}
use linux_os_coding.Server.Connection.{Handle, handle, database_init, database_login}
use linux_os_coding.Server.Exit.{server_start}
use linux_os_coding.Server.Start.{split_line, readline, Started, client_table, server_init, boot}

-- No byte is a NUL or ends the line.
abbrev pub Plain : Text → Type 0
Plain [] = Unit
Plain (c ∷ s) = ((c == 0) ≡ false) × (ends_line c ≡ false) × Plain s

split_line-Plain : (s rest : Text) → Plain s → split_line (s ++ b'\n' ∷ rest) ≡ (s, rest)
unfolding split_line
split_line-Plain [] rest p = refl
split_line-Plain (c ∷ s) rest (z, e, p) =
    rw (e, split_line) (ap (λ (x : Text × Text). (c ∷ x.0, x.1)) (split_line-Plain s rest p))

module _ (cap : ℕ) (s rest : Text) (p : Plain s) where
  readline-fits :
      length s ≤ cap
      → readline cap (s ++ b'\n' ∷ rest) ≡ ok (s ++ replicate (cap - length s) 0, rest)
  unfolding readline
  readline-fits h = rw (split_line-Plain s rest p) (ground arith)

  readline-long : cap < length s → readline cap (s ++ b'\n' ∷ rest) ≡ fault
  unfolding readline
  readline-long h = rw (split_line-Plain s rest p) (ground arith)

c_string-whole : (s : Text) (k : ℕ) → Plain s → c_string (s ++ replicate (suc k) 0) ≡ ok s
unfolding c_string
c_string-whole [] k p = refl
c_string-whole (c ∷ s) k (z, e, p) = rw (z, c_string, c_string-whole s k p) refl

c_string-open : (s : Text) → Plain s → c_string (s ++ []) ≡ fault
unfolding c_string
c_string-open [] p = refl
c_string-open (c ∷ s) (z, e, p) = rw (z, c_string, c_string-open s p) refl

-- The string in an array that a line has been read into.
array_string :
    (cap : ℕ) (s : Text)
    → Plain s
    → length s < cap
    → c_string (s ++ replicate (cap - length s) 0) ≡ ok s
array_string cap s p h =
    ap (λ n. c_string (s ++ replicate n 0)) (left_over cap (length s) h)
    ∙ c_string-whole s (cap - length s - 1) p
  where
    left_over : (cap n : ℕ) → n < cap → cap - n ≡ suc (cap - n - 1)
    left_over cap n h = omega arith

array_open :
    (cap : ℕ) (s : Text)
    → Plain s
    → length s ≡ cap
    → c_string (s ++ replicate (cap - length s) 0) ≡ fault
array_open cap s p h =
    ap (λ n. c_string (s ++ replicate n 0)) (none_left cap (length s) h) ∙ c_string-open s p
  where
    none_left : (cap n : ℕ) → n ≡ cap → cap - n ≡ 0
    none_left cap n h = omega arith

abbrev pub logged_in : (connects : Text → Text → Text → Bool) → Handle
logged_in connects =
    let user = codes "root" in
    let code = codes "loveistrue" in
    let name = codes "net_disk_project" in handle user code name (connects user code name)

always_fault :
    {A B : Type 0} (m : Run A) (f : A → Run B) → ((a : A) → f a ≡ fault) → (m >>= f) ≡ fault
always_fault fault f e = refl
always_fault (ok a) f e = e a

module _ (room : ℕ) (user code name : Text) where
  database_init-ok :
      length user < room
      → length code < room
      → length name < room
      → database_init room user code name ≡ ok (handle user code name false)
  unfolding database_init
  database_init-ok u c n = rw (fill-ok room user u, fill-ok room code c, fill-ok room name n) refl

  database_init-fault : room ≤ length name → database_init room user code name ≡ fault
  unfolding database_init
  database_init-fault n =
      always_fault (fill room user) _
        (λ u. always_fault (fill room code) _ (λ c. rw (fill-fault room name n) refl))

module _ (room : ℕ) (connects : Text → Text → Text → Bool) (knows_utf8 new_log : Bool) where
  abbrev pub started : Started
  started = record {
    clients = client_table;
    database = logged_in connects;
    log_append = (if new_log then false else true);
  }

  login_result : (ℤ × Handle) → Started
  login_result r = record {
    clients = client_table;
    database = r.1;
    log_append = (if new_log then false else true);
  }

  login-ok :
      (user code name : Text)
      → (database_login connects knows_utf8 (handle user code name false) >>= λ r.
          ok (login_result r))
        ≡ ok (login_result (pos 1, handle user code name (connects user code name)))
  unfolding database_login login_result
  login-ok user code name = elim (Bool-cases (connects user code name)) [
    | inl e ↦ rw (e, database_login) refl
    | inr e ↦ rw (e, database_login) refl
  ]

  server_init-ok : 16 < room → server_init room connects knows_utf8 new_log ≡ ok started
  unfolding server_init login_result
  server_init-ok h =
      rw
        (database_init-ok room (codes "root") (codes "loveistrue") (codes "net_disk_project")
          (omega arith) (omega arith) (omega arith))
        (login-ok (codes "root") (codes "loveistrue") (codes "net_disk_project"))

  server_init-fault : room ≤ 16 → server_init room connects knows_utf8 new_log ≡ fault
  unfolding server_init
  server_init-fault h =
      rw
        (database_init-fault room (codes "root") (codes "loveistrue") (codes "net_disk_project")
          (omega arith))
        refl

  module _ (address port num rest : Text) (n p : ℕ) (pa : Plain address) (pp : Plain port)
      (pn : Plain num) (la : length address < 15) (ln : length num < 4)
      (en : atoi num ≡ ok (pos (suc n))) (ep : atoi port ≡ ok (pos p)) where
    abbrev file : Text
    file = address ++ b'\n' ∷ (port ++ b'\n' ∷ (num ++ b'\n' ∷ rest))

    -- The three lines, where the second fits, and the number of threads.
    lines_read :
        length port ≤ 4
        → boot room connects knows_utf8 new_log file ≡ (
            server_init room connects knows_utf8 new_log >>= λ server.
            server_start (suc n) >>= λ workers.
            c_string (address ++ replicate (15 - length address) 0) >>= λ address'.
            c_string (port ++ replicate (4 - length port) 0) >>= λ port'. atoi port' >>= λ port_num.
            ok
              (record { started = server; workers = workers; address = address'; port = port_num }))
    unfolding boot
    lines_read h =
        rw
          (
            readline-fits 15 address (port ++ b'\n' ∷ (num ++ b'\n' ∷ rest)) pa (omega arith),
            readline-fits 4 port (num ++ b'\n' ∷ rest) pp h,
            readline-fits 4 num rest pn (omega arith),
            array_string 4 num pn ln,
            en,
          )
          refl

    booted :
        length port < 4
        → 16 < room
        → boot room connects knows_utf8 new_log file ≡ (
            server_start (suc n) >>= λ workers.
            ok (record { started = started; workers = workers; address = address; port = pos p }))
    booted h r =
        lines_read (omega arith)
        ∙ rw (server_init-ok r, array_string 15 address pa la, array_string 4 port pp h)
            (rw ep refl)

    small_room : room ≤ 16 → length port ≤ 4 → boot room connects knows_utf8 new_log file ≡ fault
    small_room r h = lines_read h ∙ rw (server_init-fault r) refl

    open_port : length port ≡ 4 → boot room connects knows_utf8 new_log file ≡ fault
    open_port h =
        lines_read (omega arith)
        ∙ always_fault (server_init room connects knows_utf8 new_log) _ (λ server.
          always_fault (server_start (suc n)) _
            (λ workers. rw (array_string 15 address pa la, array_open 4 port pp h) refl))

    long_port : 4 < length port → boot room connects knows_utf8 new_log file ≡ fault
    unfolding boot
    long_port h =
        rw
          (
            readline-fits 15 address (port ++ b'\n' ∷ (num ++ b'\n' ∷ rest)) pa (omega arith),
            readline-long 4 port (num ++ b'\n' ∷ rest) pp h,
          )
          refl

  -- The start with a configuration of three lines without a NUL, the first of at most 14 bytes and the
  -- last of at most 3, that name a port and a number of threads: it succeeds if the port has at most 3
  -- digits and the allocator gives more than 16 bytes for the 8 that are asked for. Then address
  -- and port are those of the file, and `server_start` starts that many threads. Else it runs into
  -- undefined behaviour.
  pub boot-config :
      (address port num rest : Text) (n p : ℕ)
      → Plain address
      → Plain port
      → Plain num
      → length address < 15
      → length num < 4
      → atoi num ≡ ok (pos (suc n))
      → atoi port ≡ ok (pos p)
      → boot room connects knows_utf8 new_log
          (address ++ b'\n' ∷ (port ++ b'\n' ∷ (num ++ b'\n' ∷ rest)))
        ≡ (if ltb (length port) 4 && ltb 16 room
            then (server_start (suc n) >>= λ workers.
                ok (record {
                  started = started;
                  workers = workers;
                  address = address;
                  port = pos p;
                }))
            else fault)
  boot-config address port num rest n p pa pp pn la ln en ep =
      elim (Bool-cases (ltb (length port) 4)) [
        | inl short ↦ elim (Bool-cases (ltb 16 room)) [
          | inl wide ↦
              rw (short, wide)
                (booted address port num rest n p pa pp pn la ln en ep (ltb→lt _ _ short)
                  (ltb→lt _ _ wide))
          | inr small ↦
              rw (short, small)
                (small_room address port num rest n p pa pp pn la ln en ep (ground arith)
                  (ground arith))
        ]
        | inr long ↦ rw long (elim (Bool-cases (length port == 4)) [
          | inl e ↦ open_port address port num rest n p pa pp pn la ln en ep (ground arith)
          | inr e ↦ long_port address port num rest n p pa pp pn la ln en ep (ground arith)
        ])
      ]
