-- ===== src/Server/Table.antt =====
-- The table of connected clients of server.c and the searches in it.
use linux_os_coding.Base.{
  ℕ, suc, Bool, false, Option, none, some, Run, ok, fault, List, [], ◌∷◌, if◌then◌else◌, get_elem?,
  set,
}
use linux_os_coding.Base.Int.{ℤ, pos, negsuc, eqb_ℤ}
use linux_os_coding.Base.Text.{Text}

abbrev pub tcp_capacity : ℕ
tcp_capacity = 1000

-- `client_fd_t`; `fd` is -1 in a free slot.
pub record ClientFd : Type 0 where
  pub fd : ℤ
  pub work_flag : Bool
  pub name : Text
  pub path : Text

abbrev pub free_slot : ClientFd
free_slot = record { fd = negsuc 0; work_flag = false; name = []; path = [] }

-- The loop `for(j = 0; j < TCP_CAPACITY; j++)` that stops at the slot of `fd`: `j` where it stops,
-- and the slot.
unfoldable pub find : List ClientFd → ℤ → ℕ × Option ClientFd
find [] fd = (0, none)
find (c ∷ cs) fd = if eqb_ℤ c.fd fd then (0, some c) else (suc (find cs fd).0, (find cs fd).1)

-- 1 at work, 0 idle, -1 unknown.
unfoldable pub is_client_work : List ClientFd → ℤ → ℤ
unfolding find
is_client_work cs fd = elim ((find cs fd).1) [
  | none ↦ negsuc 0
  | some c ↦ if c.work_flag then pos 1 else pos 0
]

-- The write to `client_fd[k]`, undefined past the end of the table.
unfoldable pub update_slot : List ClientFd → ℕ → (ClientFd → ClientFd) → Run (List ClientFd)
update_slot cs k f = elim (get_elem? cs k) [ none ↦ fault | some c ↦ ok (set cs k (f c)) ]

-- The searches that change the slot they find, and nothing if there is none.
unfoldable pub change : List ClientFd → ℤ → (ClientFd → ClientFd) → List ClientFd
change [] fd f = []
change (c ∷ cs) fd f = if eqb_ℤ c.fd fd then f c ∷ cs else c ∷ change cs fd f
