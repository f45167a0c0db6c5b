-- ===== src/Client/Parse/Bare.antt =====
-- A command that is typed without an option.
use linux_os_coding.Base.{
  ℕ, zero, suc, ◌<◌, ◌≡◌, refl, false, fault, some, List, [], ◌∷◌, ◌++◌, length, lt→ltb, arith,
}
use linux_os_coding.Base.Int.{pos, eqb_ℤ}
use linux_os_coding.Base.Text.{Text}
use linux_os_coding.Client.{Command}
use linux_os_coding.Client.Parse.{
  is_blank, in_word, get_command_id, get_command_option, get_user_order, terminated,
  command_order_size,
}
use linux_os_coding.Client.Parse.Words.{Every, zeros, get_input-word, get_input-blank}

zeros-blank : (m n : ℕ) → Every is_blank (zeros m ++ 0 ∷ zeros n)
zeros-blank zero zero = (refl, tt)
zeros-blank zero (suc n) = (refl, zeros-blank zero n)
zeros-blank (suc m) n = (refl, zeros-blank m n)

-- A line that is a command of the list other than `pwd`, of less than 20 bytes, and a line feed, in a
-- buffer that is zero behind it: the first `get_input`, with more fuel than the command has bytes,
-- clears the line, and the one that looks for the option reads behind the end of the buffer.
pub get_user_order_bare :
    (fuel n : ℕ) (client client' : Command) (c : ℕ) (word : Text) (names : List Text)
    → is_blank c ≡ false
    → Every (in_word b' ') (c ∷ word)
    → length (c ∷ word) < command_order_size
    → length (c ∷ word) < fuel
    → get_command_id client (c ∷ word) names ≡ (pos 1, client')
    → eqb_ℤ client'.id (pos 3) ≡ false
    → get_user_order fuel client (c ∷ (word ++ b'\n' ∷ zeros n)) names ≡ some fault
unfolding get_user_order get_command_option terminated
get_user_order_bare fuel n client client' c word names nb h short enough found other = rw (
  get_input-word fuel command_order_size b' ' [] c word b'\n' (zeros n) tt nb h refl (omega arith)
      enough,
  lt→ltb (length (c ∷ word)) command_order_size short,
  found,
  found,
  other,
  get_input-blank fuel 512 0 (zeros (length (c ∷ word)) ++ 0 ∷ zeros n)
      (zeros-blank (length (c ∷ word)) n),
  get_user_order,
  get_command_option,
  terminated,
)
