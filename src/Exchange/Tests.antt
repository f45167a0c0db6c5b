-- ===== src/Exchange/Tests.antt =====
-- Tests of the module Exchange: four bytes, of which the receiver has two.
use linux_os_coding.Base.{refl, true, some, none, [], if◌then◌else◌, inl, arith}
use linux_os_coding.Base.Int.{pos}
use linux_os_coding.Base.Text.{Text, str_eq, codes}
use linux_os_coding.Wire.{Link, Files}
use linux_os_coding.Socket.{chunk}
use linux_os_coding.Server.{Message}
use linux_os_coding.Server.Transfer.Resume.{piece, all}
use linux_os_coding.Exchange.Gets.{sized, Served, Fetched, gets-whole}
use linux_os_coding.Exchange.Puts.{Offered, Stored, puts-whole}

abbrev holding : Text → Files
holding t = record {
  content = λ p. if str_eq p (codes "f") then some t else none;
  writable = λ p. true;
}

abbrev message : Message
message = record { len = pos 0; order = pos 0; file_size = pos 0; buffer = [] }

-- An end that receives a message and then `cd`.
abbrev end_with : Message → Link
end_with m = record {
  sent = [];
  send_results = λ n. pos 1;
  replies = λ n. (pos 1, m);
  chunks = λ n. chunk (codes "cd");
  sendfile_results = λ n. some 100;
}

gets-whole_example :
    Served
      (codes "abcd")
      2
      (omega arith)
      message
      (holding (codes "abcd"))
      (codes "f")
      (end_with (sized message 2))
    × Fetched
        (codes "abcd")
        2
        (omega arith)
        message
        2
        (holding (codes "ab"))
        (codes "f")
        message
        (end_with (sized message 4))
unfolding str_eq
gets-whole_example =
    gets-whole (codes "abcd") 2 (omega arith) message (holding (codes "abcd"))
      (holding (codes "ab")) (codes "f") (codes "f") (end_with (sized message 2))
      (end_with (sized message 4)) message 100 1 refl (refl, inl refl) refl refl (omega arith) refl
      (refl, tt) (refl, (piece (codes "cd") [] refl (omega arith) (omega arith) refl all, refl))

puts-whole_example :
    Offered
      (codes "abcd")
      2
      (omega arith)
      message
      (holding (codes "abcd"))
      (codes "f")
      message
      (end_with (sized message 2))
    × Stored
        (codes "abcd")
        2
        (omega arith)
        message
        2
        (holding (codes "ab"))
        (codes "f")
        (end_with (sized message 4))
unfolding str_eq
puts-whole_example =
    puts-whole (codes "abcd") 2 (omega arith) message (holding (codes "ab"))
      (holding (codes "abcd")) (codes "f") (codes "f") (end_with (sized message 4))
      (end_with (sized message 2)) message 100 1 refl (refl, inl refl) refl refl (omega arith) refl
      (refl, (piece (codes "cd") [] refl (omega arith) (omega arith) refl all, refl)) (refl, tt)
