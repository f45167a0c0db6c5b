-- ===== src/Ls/Tests.antt =====
-- `ls` on a directory of two files.
use linux_os_coding.Base.{ℕ, ◌≡◌, refl, ok, ◌>>=◌, none, some, [], ◌∷◌, ◌++◌}
use linux_os_coding.Base.Int.{pos}
use linux_os_coding.Base.Text.{codes, fill, print_int}
use linux_os_coding.Memory.{Memory, write, free}
use linux_os_coding.LinkList.{
  init_list, list_sort_insert, set_next, insert_loop, delete_list, clear_list, clear_loop,
  delete_node,
}
use linux_os_coding.LinkList.Shape.{Cells}
use linux_os_coding.Ls.{
  Stat, FileData, Env, get_file_name, print_file_state, read_loop, text_less, print_file_list,
  last_slash, directory, ls,
}
use linux_os_coding.Ls.Listing.{entries}

abbrev here : Env
here = record {
  ctime = λ t. codes "Thu Jun 21 17:05:03 2018\n";
  user_name = λ u. some (codes "ann");
  group_name = λ g. some (codes "dev");
}

abbrev a_file : (st_mode st_size : ℕ) → Stat
a_file st_mode st_size = record {
  st_mode = st_mode;
  st_nlink = 1;
  st_uid = 7;
  st_gid = 8;
  st_size = st_size;
  st_mtime = pos 0;
}

abbrev a_directory : Cells FileData
a_directory =
    (2, record { name = codes "ls.c"; state = a_file 33188 940 })
    ∷ (3, record { name = codes "bin"; state = a_file 16877 4096 })
    ∷ (4, record { name = codes "log"; state = a_file 33188 0 })
    ∷ []

-- The line of the empty file is one byte wider than the others.
printed_lines :
    (ls here (codes ".") (directory (entries a_directory)) 1 9 (λ a. none) >>= λ (out, h). ok out)
    ≡ ok (
        codes "drwxr-xr-x 1 ann dev 4096 Jun 21 17:05 bin\n"
        ++ codes "-rw-r--r-- 1 ann dev     0 Jun 21 17:05 log\n"
        ++ codes "-rw-r--r-- 1 ann dev  940 Jun 21 17:05 ls.c\n")
unfolding ls init_list read_loop fill list_sort_insert set_next write insert_loop text_less
    print_file_list print_file_state delete_list clear_list clear_loop delete_node free print_int
printed_lines = refl

file_names :
    (get_file_name 512 (codes "a/b/c") ≡ ok (codes "c"))
    × (get_file_name 512 (codes "/c") ≡ ok (codes "/c"))
unfolding get_file_name fill last_slash
file_names = (refl, refl)
