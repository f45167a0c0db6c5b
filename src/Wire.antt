-- ===== src/Wire.antt =====
-- The surroundings of a file transfer: a connection on which messages and raw bytes alternate, and
-- the files of one machine. What the kernel returns is a stream of answers, one for each call;
-- Socket shows why `send_n` and `recv_n` may be taken to move whole messages.
use linux_os_coding.Base.{
  ℕ, suc, ◌-◌, Bool, true, false, Option, none, some, List, [], ◌∷◌, ◌++◌, length, take, drop,
  if◌then◌else◌,
}
use linux_os_coding.Base.Int.{ℤ, pos, negsuc, eqb_ℤ}
use linux_os_coding.Base.Text.{Text, str_eq}
use linux_os_coding.Server.{Message}
use linux_os_coding.Socket.{Arrival}
use Prim.Native.Nat.{min}

pub data Packet : Type 0 where
  whole : Message → Packet
  raw : Text → Packet

pub record Link : Type 0 where
  pub sent : List Packet  -- what has left this side
  pub send_results : ℕ → ℤ  -- what `send_n` returns, call by call
  pub replies : ℕ → ℤ × Message  -- what `recv_n` returns and stores
  pub chunks : ℕ → Arrival  -- what `recv` brings
  pub sendfile_results : ℕ → Option ℕ  -- how much `sendfile` moves at most, `none` for an error

abbrev pub later {ℓ} : {A : Type ℓ} → (ℕ → A) → ℕ → A
later f n = f (suc n)

-- `send_n` of a message: the message has left if 1 is returned.
unfoldable pub send_message : Message → Link → ℤ × Link
send_message m l =
    let r = l.send_results 0 in
    (
      r,
      record l {
        sent = (if eqb_ℤ r (pos 1) then l.sent ++ whole m ∷ [] else l.sent);
        send_results = later l.send_results;
      },
    )

-- `recv_n` into a message, which keeps its value unless 1 is returned.
unfoldable pub recv_message : Message → Link → ℤ × Message × Link
recv_message m l =
    let (r, m') = l.replies 0 in
    (r, (if eqb_ℤ r (pos 1) then m' else m), record l { replies = later l.replies })

-- `content` is `none` where there is no file; one that is there can be read. `open` for writing fails
-- where `writable` is false.
pub record Files : Type 0 where
  pub content : Text → Option Text
  pub writable : Text → Bool

unfoldable pub put_file : Files → Text → Text → Files
put_file fs path bytes = record fs {
  content = λ p. if str_eq p path then some bytes else fs.content p;
}

-- `write` through a descriptor on `path`, at the end of the file. `open` may have failed: then the
-- descriptor is -1 and the bytes go nowhere.
unfoldable pub append_file : (opened : Bool) → Files → Text → Text → Files
unfolding put_file
append_file false fs path bytes = fs
append_file true fs path bytes = elim (fs.content path) [
  | none ↦ fs
  | some old ↦ put_file fs path (old ++ bytes)
]

-- `sendfile` of `count` bytes at most from `offset`: what it returns, and the bytes on the wire. A
-- negative offset is an error.
unfoldable pub sendfile : Text → (offset : ℤ) → (count : ℕ) → Link → ℤ × Link
sendfile bytes (negsuc n) count l = (negsuc 0, l)
sendfile bytes (pos offset) count l = elim (l.sendfile_results 0) [
  | none ↦ (negsuc 0, record l { sendfile_results = later l.sendfile_results })
  | some most ↦
      let n = min most (min count (length bytes - offset)) in
      (
        pos n,
        record l {
          sent = l.sent ++ raw (take n (drop offset bytes)) ∷ [];
          sendfile_results = later l.sendfile_results;
        },
      )
]
