-- ===== src/Server/Account/Login.antt =====
-- Who gets in: `do_task_login` and `do_task_regist` of server.c.
use linux_os_coding.Base.{
  ℕ, zero, suc, ◌+◌, ◌<◌, ◌≡◌, refl, ap, ok, fault, Option, none, some, List, [], ◌∷◌, ◌++◌, length,
  arith, Post, each, each_eq, ◌∙◌, >>=-eq-ok, ◌⊎◌, inl, inr, true, Bool-cases, Option-cases,
}
use linux_os_coding.Base.Int.{ℤ}
use linux_os_coding.Base.Text.{Text, codes, fill, fill-fault, fill-ok, str_eq, str_eq_iff}
use linux_os_coding.Queue.Store.{Task}
use linux_os_coding.Server.{Message, World}
use linux_os_coding.Server.Log.{Tm}
use linux_os_coding.Server.Database.{Query, Row, Rows, database_select, fetch, cell}
use linux_os_coding.Server.Shell.{say}
use linux_os_coding.Server.Account.{
  credentials, sign_in, get_rand_str, matches, make_salt, do_task_login,
}

length-rand : (rand : ℕ → ℕ) (n : ℕ) → length (get_rand_str rand n) ≡ n
unfolding get_rand_str
length-rand rand zero = refl
length-rand rand (suc n) = ap suc (length-rand (λ i. rand (suc i)) n)

-- `make_salt` of a stack with no slack writes past `rand_str`.
pub salt_overrun : (rand : ℕ → ℕ) → make_salt 0 rand ≡ fault
unfolding make_salt
salt_overrun rand = rw (fill-fault 8 (get_rand_str rand 8) (omega (arith, length-rand rand 8)))

-- With a spare byte behind each of the two buffers the salt is "$6$" and eight bytes of the alphabet.
pub make_salt-ok :
    (slack : ℕ) (rand : ℕ → ℕ)
    → 0 < slack
    → make_salt slack rand ≡ ok (codes "$6$" ++ get_rand_str rand 8)
unfolding make_salt
make_salt-ok slack rand more = rw (
  fill-ok (8 + slack) (get_rand_str rand 8) (omega (arith, length-rand rand 8)),
  fill-ok (11 + slack) (codes "$6$" ++ get_rand_str rand 8) (omega (arith, length-rand rand 8)),
)

fetch_first :
    (result : Rows) (r : Row)
    → fetch result ≡ ok (some r)
    → (rs : List Row) × (result ≡ some (r ∷ rs))
fetch_first none r e = cc
fetch_first (some []) r e = cc
fetch_first (some (r' ∷ rs)) r e = (rs, ground arith)

pub say_lem : (m : Message) (t : Text) {m' : Message} → say m t ≡ ok m' → m'.buffer ≡ t
unfolding say fill
say_lem m t e = ground arith

pub fill_lem : (cap : ℕ) (t : Text) {t' : Text} → fill cap t ≡ ok t' → t' ≡ t
unfolding fill
fill_lem cap t e = ground arith

matches_lem :
    (crypt : Text → Text → Option Text) {Db : Type 0} (query : Query Db) (code : Text) (r : Row)
    → matches query crypt code r ≡ ok true
    → (stored salt : Text) × (cell r 0 ≡ ok stored)
      × (cell r 1 ≡ ok salt)
      × (crypt code salt ≡ some stored)
unfolding matches
matches_lem crypt query code r e =
    let (stored, e0, e') = >>=-eq-ok (cell r 0) _ e in
    let (salt, e1, e'') = >>=-eq-ok (cell r 1) _ e' in
    (stored, salt, e0, e1, hashed stored salt e'')
  where
    hashed :
        (stored salt : Text)
        → elim (crypt code salt) [ none ↦ fault | some h ↦ ok (str_eq stored h) ] ≡ ok true
        → crypt code salt ≡ some stored
    hashed stored salt x = elim (Option-cases (crypt code salt)) [
      | inl n ↦ absurd (ground arith)
      | inr (h, n) ↦ n ∙ ground (arith, str_eq_iff stored h)
    ]

module _ {Db : Type 0} (query : Query Db) (crypt : Text → Text → Option Text) where
  -- The select with the option's name gives a row, and what `crypt` makes of the option's password and
  -- the row's salt is the row's code.
  abbrev pub Authentic : World Db → Text → Type 0
  Authentic w option =
      (name code cond : Text) × (s : ℤ) × (db : Db) × (r : Row) × (rs : List Row) × (stored
        salt : Text)
      × (credentials option ≡ ok (name, code))
      × (cond ≡ codes "name='" ++ name ++ codes "'")
      × (database_select query w.db (codes "code,salt_code,path") (codes "USER") (some cond)
          ≡ ok (s, db, some (r ∷ rs)))
      × (cell r 0 ≡ ok stored)
      × (cell r 1 ≡ ok salt)
      × (crypt code salt ≡ some stored)

  abbrev pub LoginResult : World Db → Text → World Db × Message → Type 0
  LoginResult w option (w', m') =
      (Authentic w option × (m'.buffer ≡ codes "success"))
      ⊎ ((m'.buffer ≡ codes "login failure") × (w'.clients ≡ w.clients) × (w'.log ≡ w.log))

  -- A `do_task_login` that ends without undefined behaviour answers "success" only where the select with
  -- the name as it was typed gives a row, and `crypt` makes the row's code of the password. Otherwise it
  -- answers "login failure" and neither the table nor the log changes.
  pub login-Authentic :
      (now : Tm) (w : World Db) (task : Task) (m : Message)
      → Post (LoginResult w task.option) (do_task_login query crypt now w task m)
  unfolding do_task_login
  login-Authentic now w task m =
      each_eq (LoginResult w task.option) (credentials task.option) _ λ (name, code) ec.
        each_eq (LoginResult w task.option) (fill 200 (codes "name='" ++ name ++ codes "'")) _
          λ cond ef.
            each_eq (LoginResult w task.option)
              (database_select query w.db (codes "code,salt_code,path") (codes "USER") (some cond))
              _
              λ (s, db, result) es. each_eq (LoginResult w task.option) (fetch result) _ λ row er.
                elim (Option-cases row) [
                  | inl e ↦ rw e (unfold say fill in ground arith)
                  | inr (r, e) ↦ rw e (
                      each_eq (LoginResult w task.option) (matches query crypt code r) _ λ same em.
                        elim (Bool-cases same) [
                          | inl right ↦ rw right (
                              each_eq (LoginResult w task.option) (say m (codes "success")) _
                                λ m' ey.
                                  each (LoginResult w task.option)
                                    (sign_in now (record w { db = db }) task.fd name (cell r 2)
                                      (codes " login"))
                                    _
                                    λ w'.
                                      let (rs, first) =
                                        fetch_first result r (er ∙ ap (λ o. ok o) e) in
                                      let (stored, salt, e0, e1, h) =
                                        matches_lem crypt query code r
                                          (em ∙ ap (λ b. ok b) right) in
                                      inl (
                                        (
                                          name,
                                          code,
                                          cond,
                                          s,
                                          db,
                                          r,
                                          rs,
                                          stored,
                                          salt,
                                          ec,
                                          fill_lem _ _ ef,
                                          es ∙ ap (λ o. ok (s, db, o)) first,
                                          e0,
                                          e1,
                                          h,
                                        ),
                                        say_lem m _ ey,
                                      ))
                          | inr wrong ↦ rw wrong (unfold say fill in ground arith)
                        ])
                ]
