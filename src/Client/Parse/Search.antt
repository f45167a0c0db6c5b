-- ===== src/Client/Parse/Search.antt =====
-- What `get_command_id` finds.
use linux_os_coding.Base.{
  ℕ, suc, ◌+◌, ◌≡◌, ◌≢◌, ◌∙◌, refl, ap, sym, false, List, [], ◌∷◌, ◌++◌, arith, ◌⊎◌, inl, inr,
  Bool-cases, length,
}
use linux_os_coding.Base.Int.{ℤ, pos, negsuc}
use linux_os_coding.Base.Text.{Text, str_eq, str_eq_iff}
use linux_os_coding.Client.{Command}
use linux_os_coding.Client.Parse.{search_list, get_command_id}

-- No entry is the word.
abbrev pub Lacks : Text → List Text → Type 0
Lacks word [] = Unit
Lacks word (s ∷ names) = (word ≢ s) × Lacks word names

-- The search that starts to count at `i`: the first entry that is the word, or none is.
abbrev First : ℕ → Text → List Text → ℤ → Type 0
First i word names z =
    ((z ≡ negsuc 0) × Lacks word names)
    ⊎ ((before after : List Text) × (names ≡ before ++ word ∷ after)
        × Lacks word before
        × (z ≡ pos (length before + i)))

differs : (word s : Text) → str_eq word s ≡ false → word ≢ s
differs word s h e = grind (arith, h, e, str_eq_iff word s)

step_First :
    (i : ℕ) (word s : Text) (names : List Text) (z : ℤ)
    → str_eq word s ≡ false
    → First (suc i) word names z
    → First i word (s ∷ names) z
step_First i word s names z h (inl (e, f)) = inl (e, (differs word s h, f))
step_First i word s names z h (inr (before, after, e, f, at)) =
    inr (s ∷ before, after, ap (λ ns. s ∷ ns) e, (differs word s h, f), at ∙ ap pos (omega arith))

search-First :
    (i : ℕ) (word : Text) (names : List Text) → First i word names (search_list i word names)
unfolding search_list
search-First i word [] = inl (refl, tt)
search-First i word (s ∷ names) = elim (Bool-cases (str_eq word s)) [
  | inl e ↦
      rw (e, search_list)
        (inr (
          [],
          names,
          ap (λ t. t ∷ names) (sym ((str_eq_iff word s).0 e)),
          tt,
          ap pos (omega arith),
        ))
  | inr e ↦
      rw (e, search_list)
        (step_First i word s names (search_list (suc i) word names) e
          (search-First (suc i) word names))
]

-- `get_command_id` leaves the option alone. Where no entry of the list is the word, it stores and
-- returns -1; else it returns 1 and stores the index of the first entry that is.
pub get_command_id_First :
    (client : Command) (word : Text) (names : List Text)
    → let (r, client') = get_command_id client word names in
      (client'.option ≡ client.option)
      × (((r ≡ negsuc 0) × (client'.id ≡ negsuc 0) × Lacks word names)
          ⊎ ((before after : List Text) × (r ≡ pos 1)
              × (client'.id ≡ pos (length before))
              × (names ≡ before ++ word ∷ after)
              × Lacks word before))
unfolding get_command_id
get_command_id_First client word names = (
  refl,
  elim (search-First 0 word names) [
    | inl (e, f) ↦ inl (rw e, e, f)
    | inr (before, after, e, f, at) ↦
        inr (before, after, rw at (ground arith), at ∙ ap pos (omega arith), e, f)
  ],
)
