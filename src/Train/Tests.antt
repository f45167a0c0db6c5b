-- ===== src/Train/Tests.antt =====
-- A file of five bytes in two pieces.
use linux_os_coding.Base.{
  ℕ, zero, suc, ◌≡◌, refl, ◌≤◌, true, none, some, List, [], ◌∷◌, ◌++◌, take, replicate, arith,
}
use linux_os_coding.Base.Int.{pos}
use linux_os_coding.Base.Text.{Text, codes, c_string, fill}
use linux_os_coding.Base.Bytes.{int_bytes, int_value, le_bytes, le_value}
use linux_os_coding.Socket.{Answer, took, Arrival, chunk}
use linux_os_coding.Socket.Recv.{stream}
use linux_os_coding.Train.{
  done, train_size, recv_n, returned, tran_file, send_n, client, recv_loop, download, send_loop,
  train, unless_closed, read_loop, send_last,
}
use linux_os_coding.Train.Cut.{download-arrived}
use linux_os_coding.Train.Sent.{frames, Takes, reads_of}
use linux_os_coding.Train.Whole.{tran_file-client}

abbrev pieces : List Text
pieces = codes "abc" ∷ codes "de" ∷ []

abbrev bytes_taken : ℕ → List Answer
bytes_taken zero = []
bytes_taken (suc n) = took 1 ∷ bytes_taken n

-- The bytes in two halves.
abbrev halves : List Arrival
halves =
    chunk (int_bytes (pos 1) ++ codes "f" ++ int_bytes (pos 8) ++ 5 ∷ 0 ∷ [])
    ∷ chunk (
        replicate 6 0
        ++ int_bytes (pos 3)
        ++ codes "abc"
        ++ int_bytes (pos 2)
        ++ codes "de"
        ++ int_bytes (pos 0))
    ∷ []

-- The old file was longer.
abbrev old_file : Text → Text
old_file name = codes "123456789"

bytes_taken-Takes : (n : ℕ) → Takes (bytes_taken n)
bytes_taken-Takes zero = tt
bytes_taken-Takes (suc n) = (omega arith, bytes_taken-Takes n)

tran_file-client_example :
    (tran_file (codes "f") 5 true (reads_of pieces) (bytes_taken 34)
      ≡ done (returned, stream halves))
    × (client 3 (λ name. true) old_file (1 ∷ 2 ∷ 3 ∷ 4 ∷ []) halves
        ≡ done (some (codes "f", codes "abcde6789")))
unfolding int_bytes le_bytes train_size
tran_file-client_example =
    tran_file-client (λ name. true) old_file 3 (codes "f") 5 pieces (bytes_taken 34) halves
      (1 ∷ 2 ∷ 3 ∷ 4 ∷ []) (refl, tt) (omega arith) refl
      (omega arith, omega arith, (omega arith, omega arith, tt)) (bytes_taken-Takes 34)
      (omega arith) (omega arith, (omega arith, tt)) refl refl (omega arith)

-- The connection breaks after the name: the client leaves an empty file, or keeps the old one.
broken_off :
    client 3
      (λ name. true)
      (λ name. [])
      (replicate 4 9)
      (chunk (int_bytes (pos 1) ++ codes "f") ∷ chunk [] ∷ chunk [] ∷ chunk [] ∷ [])
    ≡ done (some (codes "f", []))
unfolding client recv_n recv_loop download int_bytes le_bytes int_value le_value train_size c_string
broken_off = refl

-- An error of `read` sends three bytes of a length of -1.
read_error :
    tran_file (codes "f") 5 true (none ∷ []) (took 100 ∷ took 100 ∷ took 100 ∷ [])
    ≡ done (
      returned,
      int_bytes (pos 1) ++ codes "f" ++ int_bytes (pos 8) ++ le_bytes 8 5 ++ 255 ∷ 255 ∷ 255 ∷ [],
    )
unfolding tran_file send_n int_bytes le_bytes train_size fill send_loop train unless_closed
    read_loop send_last
read_error = refl

-- The connection ends in the second piece.
abbrev cut_off : List Arrival
cut_off = chunk (take 12 (frames pieces)) ∷ []

small_piece : (n : ℕ) → n ≤ 3 → n ≤ train_size
unfolding train_size
small_piece n h = omega arith

download-arrived_example :
    download 3 (cut_off ++ chunk [] ∷ []) (replicate 4 0) [] ≡ done (codes "abc")
unfolding int_bytes le_bytes
download-arrived_example =
    download-arrived 3 12 pieces cut_off [] (replicate 4 0) [] (omega arith)
      (omega arith, small_piece 3 (omega arith), (omega arith, small_piece 2 (omega arith), tt))
      (omega arith, tt) refl refl
