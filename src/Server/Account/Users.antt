-- ===== src/Server/Account/Users.antt =====
-- A login against the table of users that the database keeps.
use linux_os_coding.Base.{
  ◌≡◌, refl, ap, sym, ◌∙◌, Bool, true, false, Bool-cases, inl, inr, ◌⊎◌, ◌==◌, ◌||◌, Run, ok, fault,
  ◌>>=◌, Post, each, each_eq, >>=-eq-ok, Option, none, some, Option-cases, List, [], ◌∷◌, ◌++◌, map,
  if◌then◌else◌, arith,
}
use linux_os_coding.Base.Int.{ℤ}
use linux_os_coding.Base.Text.{Text, codes, fill, str_eq}
use linux_os_coding.Queue.Store.{Task}
use linux_os_coding.Server.{Message, World}
use linux_os_coding.Server.Log.{Tm}
use linux_os_coding.Server.Database.{Query, Row, Rows, database_select, fetch, cell}
use linux_os_coding.Server.Shell.{say}
use linux_os_coding.Server.Account.{credentials, sign_in, matches, do_task_login}
use linux_os_coding.Server.Account.Login.{say_lem, fill_lem}

-- A row of the table USER.
pub record User : Type 0 where
  pub name : Text
  pub code : Text
  pub salt_code : Text
  pub path : Text

abbrev pub row_of : User → Row
row_of u = some u.code ∷ some u.salt_code ∷ some u.path ∷ []

-- No byte of a text ends or escapes a string of SQL: none is `'` or a backslash.
abbrev pub Plain : Text → Type 0
Plain [] = Unit
Plain (c ∷ s) = ((c == b'\'' || c == 92) ≡ false) × Plain s

-- `same` is how the database compares names.
module _ (same : Text → Text → Bool) where
  abbrev pub with_name : Text → List User → List User
  with_name name [] = []
  with_name name (u ∷ us) = if same u.name name then u ∷ with_name name us else with_name name us

  -- What the database documents of a select: where the text between the quotes is plain, it gives the rows
  -- whose name is that text, in the order of the table, or it fails. Nothing is said of other texts.
  abbrev pub Selects : {Db : Type 0} → Query Db → Db → List User → Type 0
  Selects {Db} query db users =
      (name : Text)
      → Plain name
      → (db' : Db) × (rows : Rows) × (query db
            (codes "SELECT code,salt_code,path FROM USER WHERE name='" ++ name ++ codes "'")
          ≡ (db', rows))
        × ((rows ≡ none) ⊎ (rows ≡ some (map row_of (with_name name users))))

  abbrev pub agrees : Text → Option Text → Bool
  agrees stored none = false
  agrees stored (some hashed) = str_eq stored hashed

  -- The reference: the first user with the name, and whether the password is that user's.
  abbrev pub first : Text → List User → Option User
  first name [] = none
  first name (u ∷ us) = if same u.name name then some u else first name us

  abbrev pub is_password : (crypt : Text → Text → Option Text) → (code : Text) → Option User → Bool
  is_password crypt code none = false
  is_password crypt code (some u) = agrees u.code (crypt code u.salt_code)

  abbrev row_found : Option User → Option Row
  row_found none = none
  row_found (some u) = some (row_of u)

  first_row :
      (name : Text) (us : List User)
      → fetch (some (map row_of (with_name name us))) ≡ ok (row_found (first name us))
  first_row name [] = refl
  first_row name (u ∷ us) = elim (Bool-cases (same u.name name)) [
    | inl yes_same ↦ rw yes_same refl
    | inr other ↦ rw other (first_row name us)
  ]

  -- What `do_task_login` leaves where the answer is to be `good`.
  abbrev pub Answered : {Db : Type 0} → World Db → (good : Bool) → World Db × Message → Type 0
  Answered w good (w', m') =
      (m'.buffer ≡ (if good then codes "success" else codes "login failure"))
      × (good ≡ false → (w'.clients ≡ w.clients) × (w'.log ≡ w.log))

  abbrev answer_of : {Db : Type 0} → Db × Rows → Run (ℤ × Db × Rows) → Db × Rows
  answer_of default (ok (s, db, rows)) = (db, rows)
  answer_of default fault = default

  module _ {Db : Type 0} (query : Query Db) (crypt : Text → Text → Option Text) (now : Tm)
      (w : World Db) (task : Task) (m : Message) where
    refused :
        (db : Db)
        → Post
            (Answered w false)
            (say m (codes "login failure") >>= λ m'. ok (record w { db = db }, m'))
    refused db =
        each_eq (Answered w false) (say m (codes "login failure")) _
          λ m' ey. (say_lem m _ ey, λ e. (refl, refl))

    -- `do_task_login` behind the fetch of the first row.
    abbrev behind_fetch : (name code : Text) → Db → Option Row → Run (World Db × Message)
    behind_fetch name code db row = elim row [
      | none ↦ do m' ← say m (codes "login failure"); ok (record w { db = db }, m')
      | some r ↦ matches query crypt code r >>= λ right. elim right [
        | true ↦ do
          m' ← say m (codes "success")
          w' ← sign_in now (record w { db = db }) task.fd name (cell r 2) (codes " login")
          ok (w', m')
        | false ↦ do m' ← say m (codes "login failure"); ok (record w { db = db }, m')
      ]
    ]

    welcomed :
        (name : Text) (db : Db) (u : User)
        → Post (Answered w true) (do
          m' ← say m (codes "success")
          w' ← sign_in now (record w { db = db }) task.fd name (cell (row_of u) 2) (codes " login")
          ok (w', m'))
    welcomed name db u = each_eq (Answered w true) (say m (codes "success")) _ λ m' ey.
        each (Answered w true)
          (sign_in now (record w { db = db }) task.fd name (cell (row_of u) 2) (codes " login")) _
          λ w'. (say_lem m _ ey, λ e. absurd (ground (arith, e)))

    checked :
        (name code : Text) (db : Db) (found : Option User)
        → Post
            (Answered w (is_password crypt code found))
            (behind_fetch name code db (row_found found))
    unfolding matches
    checked name code db none = refused db
    checked name code db (some u) = elim (Option-cases (crypt code u.salt_code)) [
      | inl no_hash ↦ rw no_hash tt
      | inr (h, hashed) ↦ elim (Bool-cases (str_eq u.code h)) [
        | inl right ↦ rw (hashed, right) (welcomed name db u)
        | inr wrong ↦ rw (hashed, wrong) (refused db)
      ]
    ]

    -- What a select hands on of the database's answer.
    selected :
        (items table cond : Text) (a : ℤ × Db × Rows)
        → database_select query w.db items table (some cond) ≡ ok a
        → query w.db
            (codes "SELECT " ++ items ++ codes " FROM " ++ table ++ codes " WHERE " ++ cond)
          ≡ (a.1, a.2)
    unfolding database_select
    selected items table cond a e =
        let text = codes "SELECT " ++ items ++ codes " FROM " ++ table ++ codes " WHERE " ++ cond in
        let (statement, whole, e') = >>=-eq-ok (fill 500 text) _ e in
        rw (fill_lem 500 text whole) at (ap (answer_of (query w.db statement)) e')

    -- Where the database selects users by their names as it documents, and the name is typed without a quote
    -- and a backslash: a `do_task_login` that ends without undefined behaviour answers "success" if the
    -- password is that of the first user with the name, and else, also where there is none,
    -- "login failure" with the table of clients and the log as they were.
    pub login-Answered :
        (users : List User) (name code : Text)
        → Selects query w.db users
        → credentials task.option ≡ ok (name, code)
        → Plain name
        → Post
            (Answered w (is_password crypt code (first name users)))
            (do_task_login query crypt now w task m)
    unfolding do_task_login
    login-Answered users name code selects typed plain =
        let (db', rows, run, cases) = selects name plain in
        let good = is_password crypt code (first name users) in
        rw (typed, do_task_login)
          (each_eq (Answered w good) (fill 200 (codes "name='" ++ name ++ codes "'")) _ λ cond ef.
            each_eq (Answered w good)
              (database_select query w.db (codes "code,salt_code,path") (codes "USER") (some cond))
              _
              λ a es.
                let text_same : cond ≡ codes "name='" ++ name ++ codes "'" = fill_lem 200 _ ef in
                let answered : query w.db (
                      codes "SELECT code,salt_code,path FROM USER WHERE name='"
                      ++ name
                      ++ codes "'")
                    ≡ (a.1, a.2) =
                  rw text_same at
                    (selected (codes "code,salt_code,path") (codes "USER") cond a es) in
                let rows_same : a.2 ≡ rows = ap (λ (p : Db × Rows). p.1) (sym answered ∙ run) in
                elim cases [
                  | inl failed ↦ rw (rows_same ∙ failed) tt
                  | inr found ↦
                      rw (rows_same ∙ found, first_row name users)
                        (checked name code a.1 (first name users))
                ])
