-- ===== src/Server/Log.antt =====
-- `log_input` of server.c.
use linux_os_coding.Base.{
  ℕ, ◌+◌, ◌-◌, Run, ok, ◌>>=◌, List, [], ◌∷◌, ◌++◌, length, replicate, ◌≡◌, refl,
}
use linux_os_coding.Base.Int.{pos}
use linux_os_coding.Base.Text.{Text, codes, fill, print_int}

abbrev pub log_buffer_size : ℕ
log_buffer_size = 200

-- `struct tm`, as `gmtime` gives it: years since 1900, months from 0.
pub record Tm : Type 0 where
  pub year : ℕ
  pub mon : ℕ
  pub mday : ℕ
  pub hour : ℕ
  pub min : ℕ
  pub sec : ℕ

-- `%0wd`
unfoldable pub print_wide : ℕ → ℕ → Text
print_wide w n = let s = print_int (pos n) in replicate (w - length s) b'0' ++ s

unfoldable pub log_line : Tm → Text → Text
log_line t text =
    print_wide 4 (1900 + t.year)
    ++ b'-' ∷ print_wide 2 (1 + t.mon)
    ++ b'-' ∷ print_wide 2 t.mday
    ++ b' ' ∷ print_wide 2 (8 + t.hour)
    ++ b':' ∷ print_wide 2 t.min
    ++ b':' ∷ print_wide 2 t.sec
    ++ b' ' ∷ text
    ++ b'\n' ∷ []

-- The line is built in 230 bytes and appended to the file.
unfoldable pub log_input : Tm → Text → List Text → Run (List Text)
log_input t text log = do line ← fill 230 (log_line t text); ok (log ++ line ∷ [])

-- `sprintf` into the server's log buffer, then `log_input`.
unfoldable pub log_entry : Tm → Text → List Text → Run (List Text)
log_entry t text log = do entry ← fill log_buffer_size text; log_input t entry log

log_line_example :
    log_line (record { year = 118; mon = 6; mday = 19; hour = 13; min = 37; sec = 5 }) (codes "x")
    ≡ codes "2018-07-19 21:37:05 x\n"
unfolding log_line print_wide print_int
log_line_example = refl
