-- ===== src/Server/Loop/Pending.antt =====
-- How many tasks of a client are under way, and what the table says of it.
use linux_os_coding.Base.{
  ℕ, ◌+◌, ◌≤◌, ◌≡◌, ◌≢◌, refl, true, none, some, List, [], ◌∷◌, ◌++◌, if◌then◌else◌, arith,
}
use linux_os_coding.Base.Int.{ℤ, pos, negsuc, eqb_ℤ, eqb_ℤ_iff}
use linux_os_coding.Queue.Store.{Task}
use linux_os_coding.Server.Table.{ClientFd, find, change, is_client_work}
use linux_os_coding.Server.Loop.{State, enqueue, popped, claim}

-- The tasks of `fd` in a list.
unfoldable pub count : ℤ → List Task → ℕ
count fd [] = 0
count fd (t ∷ ts) = (if eqb_ℤ t.fd fd then 1 else 0) + count fd ts

abbrev pub pending : State → ℤ → ℕ
pending s fd = count fd s.io + count fd s.shell + count fd s.busy

-- 1 if the slot of `fd` is marked at work.
unfoldable pub flag : List ClientFd → ℤ → ℕ
flag [] fd = 0
flag (c ∷ cs) fd = if eqb_ℤ c.fd fd then (if c.work_flag then 1 else 0) else flag cs fd

pub count-append : (fd : ℤ) (xs ys : List Task) → count fd (xs ++ ys) ≡ count fd xs + count fd ys
unfolding count
count-append fd [] ys = omega arith
count-append fd (x ∷ xs) ys = omega (arith, count-append fd xs ys)

pub count-enqueue :
    (fd : ℤ) (q : List Task) (t : Task)
    → count fd (enqueue q t) ≤ count fd q + (if eqb_ℤ t.fd fd then 1 else 0)
unfolding count
count-enqueue fd q t = ground (arith, count-append fd q (t ∷ []))

pub count-popped :
    (fd : ℤ) (t : Task) (busy : List Task)
    → count fd (popped t busy) ≤ (if eqb_ℤ t.fd fd then 1 else 0) + count fd busy
unfolding count popped
count-popped fd t busy = ground arith

pub flag-change_ne :
    (cs : List ClientFd) (fd other : ℤ) (f : ClientFd → ClientFd)
    → ((c : ClientFd) → c.fd ≡ fd → (f c).fd ≢ other)
    → fd ≢ other
    → flag (change cs fd f) other ≡ flag cs other
unfolding flag change
flag-change_ne [] fd other f keep ne = refl
flag-change_ne (c ∷ cs) fd other f keep ne = ground (
  arith,
  keep c,
  eqb_ℤ_iff c.fd fd,
  eqb_ℤ_iff c.fd other,
  eqb_ℤ_iff (f c).fd other,
  flag-change_ne cs fd other f keep ne,
)

pub flag-le : (cs : List ClientFd) (fd : ℤ) → flag cs fd ≤ 1
unfolding flag
flag-le [] fd = omega arith
flag-le (c ∷ cs) fd = ground (arith, flag-le cs fd)

-- A descriptor without a slot has no flag.
pub flag-none : (cs : List ClientFd) (fd : ℤ) → (find cs fd).1 ≡ none → flag cs fd ≡ 0
unfolding flag find
flag-none [] fd e = refl
flag-none (c ∷ cs) fd e = ground (arith, flag-none cs fd)

-- The flag is the one of the slot that the search finds.
pub flag-find :
    (cs : List ClientFd) (fd : ℤ) (c : ClientFd)
    → (find cs fd).1 ≡ some c
    → flag cs fd ≡ (if c.work_flag then 1 else 0)
unfolding flag find
flag-find [] fd c e = cc
flag-find (d ∷ cs) fd c e = ground (arith, flag-find cs fd c)

pub flag-mark :
    (cs : List ClientFd) (fd : ℤ) (c : ClientFd)
    → (find cs fd).1 ≡ some c
    → flag (change cs fd (λ d. record d { work_flag = true })) fd ≡ 1
unfolding flag find change
flag-mark [] fd c e = cc
flag-mark (d ∷ cs) fd c e = ground (arith, flag-mark cs fd c)

pub flag-claim :
    (cs : List ClientFd) (fd : ℤ) (c : ClientFd)
    → (find cs fd).1 ≡ none
    → (find cs (negsuc 0)).1 ≡ some c
    → flag (claim cs fd) fd ≡ 1
unfolding flag find change
flag-claim [] fd c e free = cc
flag-claim (d ∷ cs) fd c e free = ground (arith, flag-claim cs fd c, (eqb_ℤ_iff fd fd).1 refl)

-- `is_client_work` reads the same flag.
pub is_client_work-find :
    (cs : List ClientFd) (fd : ℤ) (c : ClientFd)
    → (find cs fd).1 ≡ some c
    → eqb_ℤ (is_client_work cs fd) (pos 1) ≡ c.work_flag
unfolding is_client_work
is_client_work-find cs fd c e = ground arith
