-- ===== src/Client/Parse.antt =====
-- The words of a command line: `get_input`, `get_command_id`, `get_command_option` and
-- `get_user_order` of NET_DISK_TASK/CLIENT/src/client.c. Here a buffer is all the bytes of the array,
-- zeros included; a read behind them is a fault. `none`: the fuel of a loop ran out.
pub mod Words
pub mod Search
pub mod Bare
use linux_os_coding.Base.{
  ℕ, zero, suc, Bool, true, false, not, ◌&&◌, ◌||◌, Run, ok, fault, ◌>>=◌, ◌>>◌, require, Option,
  none, some, List, [], ◌∷◌, ◌++◌, length, ltb, ◌==◌, if◌then◌else◌,
}
use linux_os_coding.Base.Int.{ℤ, pos, negsuc, eqb_ℤ}
use linux_os_coding.Base.Text.{Text, codes, str_eq}
use linux_os_coding.Client.{Command}

abbrev pub command_order_size : ℕ
command_order_size = 20

abbrev pub command_option_size : ℕ
command_option_size = 512

abbrev pub command_list : List Text
command_list =
    codes "cd" ∷ codes "ls" ∷ codes "remove" ∷ codes "pwd" ∷ codes "gets" ∷ codes "puts" ∷ []

abbrev pub is_blank : ℕ → Bool
is_blank c = c == 0 || c == b' '

abbrev pub in_word : (key : ℕ) → ℕ → Bool
in_word key c = not (c == key) && not (c == 0) && not (c == b'\n')

-- The first loop: what it passes, and the rest of the buffer.
unfoldable pub skip_blanks : Text → Run (Text × Text)
skip_blanks [] = fault
skip_blanks (c ∷ rest) = elim (is_blank c) [
  | true ↦ skip_blanks rest >>= λ (passed, rest'). ok (c ∷ passed, rest')
  | false ↦ ok ([], c ∷ rest)
]

-- The second loop, at the byte behind `passed`: the word it copies and the buffer, in which the
-- copied bytes are cleared. A byte for which `order` has no room is not passed.
unfoldable pub copy_word :
    (fuel buffer_size key : ℕ) → (order passed rest : Text) → Option (Run (Text × Text))
copy_word zero buffer_size key order passed rest = none
copy_word (suc k) buffer_size key order passed [] = some fault
copy_word (suc k) buffer_size key order passed (c ∷ rest) = elim (in_word key c) [
  | false ↦ some (ok (order, passed ++ 0 ∷ rest))
  | true ↦ elim (ltb (length order) buffer_size) [
    | true ↦ copy_word k buffer_size key (order ++ c ∷ []) (passed ++ 0 ∷ []) rest
    | false ↦ copy_word k buffer_size key order passed (c ∷ rest)
  ]
]

-- The word, of `buffer_size` bytes at most: with so many it has no NUL.
unfoldable pub get_input : (fuel buffer_size key : ℕ) → Text → Option (Run (Text × Text))
get_input fuel buffer_size key buffer = elim (skip_blanks buffer) [
  | fault ↦ some fault
  | ok (passed, rest) ↦ copy_word fuel buffer_size key [] passed rest
]

-- The search, from index `i` on.
unfoldable pub search_list : ℕ → Text → List Text → ℤ
search_list i command [] = negsuc 0
search_list i command (name ∷ names) =
    let rest = search_list (suc i) command names in if str_eq command name then pos i else rest

unfoldable pub get_command_id : Command → Text → List Text → ℤ × Command
get_command_id client command names =
    let id = search_list 0 command names in
    ((if eqb_ℤ id (negsuc 0) then negsuc 0 else pos 1), record client { id = id })

-- A string function on the word needs its NUL.
unfoldable pub terminated : (size : ℕ) → Text → Run Text
terminated size s = if ltb (length s) size then ok s else fault

unfoldable pub get_command_option : (fuel : ℕ) → Command → Text → Option (Run Command)
get_command_option fuel client buffer = elim (eqb_ℤ client.id (pos 3)) [
  | true ↦ some (ok (record client { option = [] }))
  | false ↦ elim (get_input fuel command_option_size 0 buffer) [
    | none ↦ none
    | some r ↦ some (r >>= λ (option, _). ok (record client { option = option }))
  ]
]

unfoldable pub get_user_order : (fuel : ℕ) → Command → Text → List Text → Option (Run (ℤ × Command))
get_user_order fuel client buffer names = elim (get_input fuel command_order_size b' ' buffer) [
  | none ↦ none
  | some fault ↦ some fault
  | some (ok (order, buffer')) ↦ elim (terminated command_order_size order) [
    | fault ↦ some fault
    | ok word ↦
        let (r, client') = get_command_id client word names in
        elim (eqb_ℤ r (negsuc 0)) [
          | true ↦ some (ok (negsuc 0, client'))
          | false ↦ elim (get_command_option fuel client' buffer') [
            | none ↦ none
            | some run ↦ some (run >>= λ c. ok (pos 1, c))
          ]
        ]
  ]
]
