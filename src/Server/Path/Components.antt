-- ===== src/Server/Path/Components.antt =====
-- The walk over the bytes of a path against the resolution of its components.
use linux_os_coding.Base.{
  suc, ◌+◌, ◌<◌, ◌≡◌, refl, ap, ◌∙◌, true, false, Run, ok, ◌>>=◌, Option, some, List, [], ◌∷◌, ◌++◌,
  length, length-append, ltb, ◌==◌, lt→ltb, if◌then◌else◌, arith, Bool-cases, inl, inr,
  append_assoc, append-nil,
}
use linux_os_coding.Base.Int.{ℤ}
use linux_os_coding.Base.Text.{Text}
use linux_os_coding.Server.Database.{Query}
use mathlib.Core.Path.{fun_ext}
use linux_os_coding.Server.Path.{slash, if_found, push, enter_dir, walk_dir, walk_file}

-- The components of a path: the texts between its slashes, empty ones too. A path has one more
-- than it has slashes.
unfoldable pub components : Text → Text × List Text
components [] = ([], [])
components (c ∷ rest) =
    if c == slash
    then ([], (components rest).0 ∷ (components rest).1)
    else (c ∷ (components rest).0, (components rest).1)

-- The path less one slash at its end.
unfoldable pub strip : Text → Text
strip [] = []
strip (c ∷ []) = if c == slash then [] else c ∷ []
strip (c ∷ d ∷ rest) = c ∷ strip (d ∷ rest)

abbrev pub All {ℓ κ} : {A : Type ℓ} → (A → Type κ) → List A → Type κ
All P [] = Unit
All P (x ∷ xs) = P x × All P xs

module _ {Db : Type 0} (query : Query Db) where
  -- Each component but the last is the name of a directory in the one before it.
  unfoldable pub descend : Db → Text → List Text → ℤ → Run (Db × Option (Text × ℤ))
  descend db name [] dir = ok (db, some (name, dir))
  descend db name (next ∷ more) dir =
      enter_dir query db name dir >>= if_found (λ db' id. descend db' next more id)

  walk-from :
      (db : Db) (rest dir_name : Text) (dir : ℤ)
      → length dir_name + length (components rest).0 < 256
      → All (λ (t : Text). length t < 256) (components rest).1
      → walk_file query db rest dir_name dir
        ≡ descend db (dir_name ++ (components rest).0) (components rest).1 dir
  unfolding walk_file descend components
  walk-from db [] dir_name dir short all = rw (append-nil dir_name)
  walk-from db (c ∷ rest) dir_name dir short all = elim (Bool-cases (c == slash)) [
    | inl at_slash ↦
        rw (at_slash, walk_file, append-nil dir_name)
          (ap (λ k. enter_dir query db dir_name dir >>= if_found k)
            (fun_ext
              λ db'. fun_ext λ id. walk-from db' rest [] id (later at_slash).0 (later at_slash).1))
    | inr other ↦
        rw (other, walk_file, fits other)
          (walk-from db rest (dir_name ++ c ∷ []) dir (longer other) (rest_short other)
            ∙ ap (λ (t : Text). descend db t (components rest).1 dir)
                (append_assoc dir_name (c ∷ []) (components rest).0))
  ]
    where
      fits : (c == slash) ≡ false → ltb (length dir_name) 256 ≡ true
      fits other = lt→ltb _ _ (omega (arith, short))

      later :
          (c == slash) ≡ true
          → (0 + length (components rest).0 < 256)
            × All (λ (t : Text). length t < 256) (components rest).1
      later e =
          let h : All (λ (t : Text). length t < 256) ((components rest).0 ∷ (components rest).1) =
            rw (e, components) at all in
          (omega (arith, h.0), h.1)

      short' : (c == slash) ≡ false → length dir_name + suc (length (components rest).0) < 256
      short' e = rw (e, components) at short

      longer : (c == slash) ≡ false → length (dir_name ++ c ∷ []) + length (components rest).0 < 256
      longer e = omega (arith, short' e, length-append dir_name (c ∷ []))

      rest_short : (c == slash) ≡ false → All (λ (t : Text). length t < 256) (components rest).1
      rest_short e = rw (e, components) at all

  -- Where no component is longer than 255 bytes, the loop of `do_task_remove`, `do_task_gets` and
  -- `do_task_puts` resolves the components in order, with one query for each but the last, and stops
  -- at the first that is no directory.
  pub walk_file-descend :
      (db : Db) (path : Text) (dir : ℤ)
      → length (components path).0 < 256
      → All (λ (t : Text). length t < 256) (components path).1
      → walk_file query db path [] dir ≡ descend db (components path).0 (components path).1 dir
  walk_file-descend db path dir short all = walk-from db path [] dir (omega (arith, short)) all

  -- The loop of `do_task_cd` and `do_task_ls` is the same walk along the path less one slash at its
  -- end.
  pub walk_dir-strip :
      (db : Db) (path dir_name : Text) (dir : ℤ)
      → walk_dir query db path dir_name dir ≡ walk_file query db (strip path) dir_name dir
  unfolding walk_dir walk_file strip
  walk_dir-strip db [] dir_name dir = refl
  walk_dir-strip db (c ∷ []) dir_name dir = elim (Bool-cases (c == slash)) [
    | inl at_slash ↦ rw (at_slash, walk_dir)
    | inr other ↦ rw (other, walk_dir) (rw (other, walk_file))
  ]
  walk_dir-strip db (c ∷ d ∷ rest) dir_name dir = elim (Bool-cases (c == slash)) [
    | inl at_slash ↦
        rw (at_slash, walk_dir, walk_file)
          (ap (λ k. enter_dir query db dir_name dir >>= if_found k)
            (fun_ext λ db'. fun_ext λ id. walk_dir-strip db' (d ∷ rest) [] id))
    | inr other ↦
        rw (other, walk_dir, walk_file)
          (ap (λ k. push dir_name c >>= k)
            (fun_ext λ longer. walk_dir-strip db (d ∷ rest) longer dir))
  ]
