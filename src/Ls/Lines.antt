-- ===== src/Ls/Lines.antt =====
-- What `printFileList` prints for the list that stands in memory.
use linux_os_coding.Base.{
  ℕ, zero, suc, ◌<◌, ◌≡◌, ◌≢◌, refl, ◌∙◌, Run, ok, fault, ◌>>=◌, Option, some, [], ◌∷◌, ◌++◌,
  length, arith,
}
use linux_os_coding.Base.Text.{Text}
use linux_os_coding.Memory.{Ptr, null, Memory, load-ok}
use linux_os_coding.LinkList.{Node, cell}
use linux_os_coding.LinkList.Shape.{Cells, Linked}
use linux_os_coding.LinkList.Delete.{first, next_cell}
use linux_os_coding.Ls.{FileData, Env, print_file_state, print_file_list}

-- The lines for the files of `xs`, behind `out`.
unfoldable pub lines : Env → (size_print : ℕ) → (out : Text) → Cells FileData → Run Text
lines env size_print out [] = ok out
lines env size_print out ((q, d) ∷ xs) =
    print_file_state env d.name d.state size_print >>= λ line. lines env size_print (out ++ line) xs

print_step :
    (env : Env) (k : ℕ) (w : ℕ) (h : Memory (Node FileData)) (p q r : Ptr) (o : Option FileData)
    (d : FileData) (out : Text)
    → p ≢ null
    → h p ≡ some (cell o q)
    → q ≢ null
    → h q ≡ some (cell (some d) r)
    → print_file_list env (suc k) p w h out ≡ (
        print_file_state env d.name d.state w >>= λ line. print_file_list env k q w h (out ++ line))
unfolding print_file_list
print_step env k w h p q r o d out np hp nq hq =
    ground (arith, load-ok h p np hp, load-ok h q nq hq)

lines_step :
    (env : Env) (w : ℕ) (out : Text) (q : Ptr) (d : FileData) (xs : Cells FileData)
    → (print_file_state env d.name d.state w >>= λ line. lines env w (out ++ line) xs)
      ≡ lines env w out ((q, d) ∷ xs)
unfolding lines
lines_step env w out q d xs = refl

each_line :
    (m : Run Text) (f g : Text → Run Text)
    → ((line : Text) → f line ≡ g line)
    → (m >>= f) ≡ (m >>= g)
each_line fault f g e = refl
each_line (ok line) f g e = e line

pub print_file_list-lines :
    (env : Env) (k : ℕ) (w : ℕ) (h : Memory (Node FileData)) (p : Ptr) (o : Option FileData)
    (xs : Cells FileData) (out : Text)
    → Linked h p o xs
    → length xs < k
    → print_file_list env k p w h out ≡ lines env w out xs
print_file_list-lines env zero w h p o xs out l enough = absurd (omega arith)
print_file_list-lines env (suc k) w h p o [] out (np, hp) enough =
    unfold print_file_list lines in rw (load-ok h p np hp, print_file_list) refl
print_file_list-lines env (suc k) w h p o ((q, d) ∷ xs) out (np, hp, off, more) enough =
    let (nq, hq) = next_cell h q (some d) xs more in
    print_step env k w h p q (first xs) o d out np hp nq hq
    ∙ each_line (print_file_state env d.name d.state w)
        (λ line. print_file_list env k q w h (out ++ line)) (λ line. lines env w (out ++ line) xs)
        (λ line. print_file_list-lines env k w h q (some d) xs (out ++ line) more (omega arith))
    ∙ lines_step env w out q d xs
