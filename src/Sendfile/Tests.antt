-- ===== src/Sendfile/Tests.antt =====
-- A file of six bytes, whole and short.
use linux_os_coding.Base.{◌≡◌, refl, true, some, [], ◌∷◌, ◌++◌, arith}
use linux_os_coding.Base.Int.{pos}
use linux_os_coding.Base.Text.{Text, codes}
use linux_os_coding.Base.Bytes.{int_bytes, le_bytes}
use linux_os_coding.Socket
use linux_os_coding.Socket.{Answer, took, Arrival, chunk, send_n}
use linux_os_coding.Train.{done}
use linux_os_coding.Sendfile.Whole.{wire_of, Leaves, tran_file-Leaves}
use linux_os_coding.Sendfile.{send_content, recv_file, message, tran_file}
use linux_os_coding.Sendfile.Short.{Written, recv_file-sent}

whole :
    recv_file 9 (chunk (codes "abc") ∷ Arrival.again ∷ chunk (codes "def") ∷ chunk [] ∷ []) 2 6 0
    ≡ some (pos 1, codes "abcdef", chunk [] ∷ [])
unfolding recv_file
whole = refl

recv_file-sent_example :
    (send_content (codes "abcdef") 6 (some 4) ≡ (pos 0, codes "abcd"))
    × Written (codes "abcd") 6 (
        recv_file 6 (chunk (codes "abc") ∷ Arrival.again ∷ chunk (codes "d") ∷ chunk [] ∷ []) 2 6 0)
recv_file-sent_example =
    recv_file-sent 2 6 (omega arith) [] 6 (codes "abcdef") 4
      (chunk (codes "abc") ∷ Arrival.again ∷ chunk (codes "d") ∷ []) refl
      (omega arith, (omega arith, tt)) refl (omega arith)

abbrev content : Text
content = codes "abcdef"

tran_file-Leaves_example :
    (tran_file (codes "f") 6 true content (some 4) (took 9 ∷ took 5 ∷ took 9 ∷ [])
      ≡ done (some (pos 0), wire_of (codes "f") 6 (codes "abcd")))
    × Leaves
        (λ name. true)
        (λ name. [])
        (codes "f")
        content
        4
        (0 ∷ 0 ∷ 0 ∷ 0 ∷ [])
        (chunk (message (codes "f"))
          ∷ Arrival.again
          ∷ chunk (message (le_bytes 8 6) ++ codes "abcd")
          ∷ chunk []
          ∷ [])
unfolding int_bytes le_bytes
tran_file-Leaves_example =
    tran_file-Leaves (λ name. true) (λ name. []) (codes "f") content 4
      (took 9 ∷ took 5 ∷ took 9 ∷ []) (took 5 ∷ took 9 ∷ []) [] (message (codes "f"))
      (message (le_bytes 8 6))
      (chunk (message (codes "f"))
        ∷ Arrival.again
        ∷ chunk (message (le_bytes 8 6) ++ codes "abcd")
        ∷ [])
      [] (0 ∷ 0 ∷ 0 ∷ 0 ∷ []) (unfold send_n Socket.send_loop in refl)
      (unfold send_n Socket.send_loop in refl) (refl, tt) (omega arith) (omega arith) refl
      (omega arith, (omega arith, tt)) refl refl
