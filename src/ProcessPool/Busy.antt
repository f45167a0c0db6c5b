-- ===== src/ProcessPool/Busy.antt =====
-- The table of busy children agrees with what the children do.
use linux_os_coding.Base.{
  ℕ, suc, ◌+◌, ◌≤◌, ◌≡◌, refl, ap, ◌∙◌, ◌≢◌, ◌⊎◌, inl, inr, Bool, true, false, List, [], ◌∷◌, ◌++◌,
  drop, length, length-append, arith, if◌then◌else◌,
}
use linux_os_coding.Base.Int.{ℤ, pos, negsuc, eqb_ℤ}
use linux_os_coding.Base.Bytes.{int_value}
use linux_os_coding.ProcessPool.{
  Child, Life, Parent, serving, leaving, killed, is_dead, receiving, sending, ended, failed,
  child_fail, post, recv_fd, send_fd, child_receive, child_notify, on_connect, Turn, Reach,
}
use linux_os_coding.ProcessPool.Everyone.{Everyone, Kept, given, heard, reach-Everyone}

abbrev pub one_if : Bool → ℕ
one_if b = if b then 1 else 0

abbrev pub at_work : Life → ℕ
at_work receiving = 0
at_work (sending fd) = 1
at_work ended = 1
at_work failed = 1

-- What has been given to a child, less what the parent has heard of.
abbrev pub load : Child → ℕ
load c = length c.inbox + at_work c.life + length c.outbox

-- A child has ended, or it has been given what the table says and `n` orders.
abbrev pub Counted : (n : ℕ) → Child → Type 0
Counted n c = (is_dead c.life ≡ true) ⊎ (load c ≡ one_if c.busy_flag + n)

abbrev pub Balanced : Parent → Child → Type 0
Balanced serving c = Counted 0 c
Balanced leaving c = Counted 1 c
Balanced killed c = Unit

length-snoc {ℓ} : {A : Type ℓ} (xs : List A) (x : A) → length (xs ++ x ∷ []) ≡ suc (length xs)
length-snoc xs x = omega (arith, length-append xs (x ∷ []))

heard-Balanced :
    (inbox work busy : ℕ) (outbox : List ℕ)
    → outbox ≢ []
    → busy ≤ 1
    → inbox + work + length outbox ≡ busy + 0
    → inbox + work + length (drop 1 outbox) ≡ 0
heard-Balanced inbox work busy [] n b e = absurd (n refl)
heard-Balanced inbox work busy (x ∷ outbox) n b e = omega arith

one_if_le : (b : Bool) → one_if b ≤ 1
one_if_le true = omega arith
one_if_le false = omega arith

at_work-received : (b : Bool) (fd : ℤ) → at_work (if b then ended else sending fd) ≡ 1
at_work-received true fd = refl
at_work-received false fd = refl

alive_at : (l m : Life) → l ≡ m → is_dead m ≡ false → ¬ (is_dead l ≡ true)
alive_at l m e alive dead = ground (arith, e, alive, dead)

Turn-Counted : (n : ℕ) (c c' : Child) → Turn c c' → Counted n c → Counted n c'
unfolding child_notify child_receive child_fail
Turn-Counted n c _ (Turn.receive _ p more l e) (inl dead) =
    absurd (alive_at c.life receiving l refl dead)
Turn-Counted n c _ (Turn.receive _ p more l e) (inr h) =
    let (fd, flag) = recv_fd p c.exit_flag in
    let inbox : length c.inbox ≡ suc (length more) = ap length e in
    let idle : at_work c.life ≡ 0 = ap at_work l in
    inr (omega (arith, inbox, idle, h, at_work-received (eqb_ℤ (negsuc 0) (int_value flag)) fd))
Turn-Counted n c _ (Turn.notify _ fd l) (inl dead) =
    absurd (alive_at c.life (sending fd) l refl dead)
Turn-Counted n c _ (Turn.notify _ fd l) (inr h) =
    let busy : at_work c.life ≡ 1 = ap at_work l in
    inr (omega (arith, busy, h, length-snoc c.outbox 1))
Turn-Counted n c _ (Turn.fail _ l) h = inl refl

Turn-Balanced : (p : Parent) (c c' : Child) → Turn c c' → Balanced p c → Balanced p c'
Turn-Balanced serving c c' t h = Turn-Counted 0 c c' t h
Turn-Balanced leaving c c' t h = Turn-Counted 1 c c' t h
Turn-Balanced killed c c' t h = tt

connect-Counted :
    (new_fd : ℤ) (c : Child) → c.busy_flag ≡ false → Counted 0 c → Counted 0 (given new_fd c)
connect-Counted new_fd c idle (inl dead) = inl dead
connect-Counted new_fd c idle (inr h) =
    let free : one_if c.busy_flag ≡ 0 = ap one_if idle in
    inr (omega (arith, h, free, length-snoc c.inbox (send_fd new_fd (pos 0))))

heard-Counted :
    (c : Child) → (c.outbox ≢ []) ⊎ (is_dead c.life ≡ true) → Counted 0 c → Counted 0 (heard c)
heard-Counted c (inr dead) h = inl dead
heard-Counted c (inl written) (inl dead) = inl dead
heard-Counted c (inl written) (inr h) = inr (
    heard-Balanced (length c.inbox) (at_work c.life) (one_if c.busy_flag) c.outbox written
      (one_if_le c.busy_flag) h)

order-Counted : (c : Child) → Counted 0 c → Counted 1 (post (pos 0) (negsuc 0) c)
order-Counted c (inl dead) = inl dead
order-Counted c (inr h) = inr (omega (arith, h, length-snoc c.inbox (send_fd (pos 0) (negsuc 0))))

balanced : Kept Balanced
balanced = record {
  at_start = λ n. inr refl;
  by_connect = λ new_fd c idle alive h. connect-Counted new_fd c idle h;
  by_notice = λ c readable h. heard-Counted c readable h;
  by_order = λ c alive h. order-Counted c h;
  by_turn = Turn-Balanced;
  by_kill = λ p c h. tt;
}

-- A child that is in `recvmsg` with nothing on the way in either direction.
abbrev pub Free : Child → Type 0
Free c = (c.life ≡ receiving) × (c.inbox ≡ []) × (c.outbox ≡ [])

no_items {ℓ} : {A : Type ℓ} (xs : List A) → length xs ≡ 0 → xs ≡ []
no_items [] h = refl
no_items (x ∷ xs) h = absurd (omega arith)

load-Free : (c : Child) → load c ≡ 0 → Free c
load-Free c h =
    (at_rest c.life (omega arith), no_items c.inbox (omega arith), no_items c.outbox (omega arith))
  where
    at_rest : (l : Life) → at_work l ≡ 0 → l ≡ receiving
    at_rest receiving h = refl
    at_rest (sending fd) h = absurd (omega arith)
    at_rest ended h = absurd (omega arith)
    at_rest failed h = absurd (omega arith)

abbrev pub Busy : Child → Type 0
Busy c = c.busy_flag ≡ true

-- What `on_connect` does with a connection: the first child that is not marked busy gets it, or it has ended and
-- the parent is killed, or there is none.
abbrev pub Placed : ℤ → List Child → Parent × List Child → Type 0
Placed new_fd cs r =
    ((before : List Child) × (c : Child) × (after : List Child) × (cs ≡ before ++ c ∷ after)
      × Everyone Busy before
      × (c.busy_flag ≡ false)
      × ((Free c × (r ≡ (serving, before ++ given new_fd c ∷ after)))
          ⊎ ((is_dead c.life ≡ true) × (r ≡ (killed, cs)))))
    ⊎ (Everyone Busy cs × (r ≡ (serving, cs)))

abbrev front : Child → Parent × List Child → Parent × List Child
front c (p, cs) = (p, c ∷ cs)

in_rear :
    (new_fd : ℤ) (c : Child) (cs : List Child) (r : Parent × List Child)
    → Busy c
    → Placed new_fd cs r
    → Placed new_fd (c ∷ cs) (front c r)
in_rear new_fd c cs r b (inl (before, d, after, e, busy, idle, inl (free, e'))) = inl (
  c ∷ before,
  d,
  after,
  ap (λ (xs : List Child). c ∷ xs) e,
  (b, busy),
  idle,
  inl (free, ap (front c) e'),
)
in_rear new_fd c cs r b (inl (before, d, after, e, busy, idle, inr (dead, e'))) = inl (
  c ∷ before,
  d,
  after,
  ap (λ (xs : List Child). c ∷ xs) e,
  (b, busy),
  idle,
  inr (dead, ap (front c) e'),
)
in_rear new_fd c cs r b (inr (busy, e')) = inr ((b, busy), ap (front c) e')

at_idle :
    (new_fd : ℤ) (c : Child) (cs : List Child) (dead : Bool)
    → c.busy_flag ≡ false
    → is_dead c.life ≡ dead
    → Counted 0 c
    → Placed new_fd (c ∷ cs) (if dead then (killed, c ∷ cs) else (serving, given new_fd c ∷ cs))
at_idle new_fd c cs true i d h = inl ([], c, cs, refl, tt, i, inr (d, refl))
at_idle new_fd c cs false i d (inl dead) = absurd (ground (arith, d, dead))
at_idle new_fd c cs false i d (inr h) =
    inl ([], c, cs, refl, tt, i, inl (load-Free c (h ∙ ap (λ (b : Bool). one_if b + 0) i), refl))

by_flag :
    (new_fd : ℤ) (c : Child) (cs : List Child) (r : Parent × List Child) (busy : Bool)
    → c.busy_flag ≡ busy
    → Counted 0 c
    → Placed new_fd cs r
    → Placed new_fd (c ∷ cs) (
        if busy
        then front c r
        else if is_dead c.life
        then (killed, c ∷ cs)
        else (serving, given new_fd c ∷ cs))
by_flag new_fd c cs r true b h placed = in_rear new_fd c cs r b placed
by_flag new_fd c cs r false i h placed = at_idle new_fd c cs (is_dead c.life) i refl h

connect-Placed :
    (new_fd : ℤ) (cs : List Child)
    → Everyone (Balanced serving) cs
    → Placed new_fd cs (on_connect new_fd cs)
unfolding on_connect
connect-Placed new_fd [] h = inr (tt, refl)
connect-Placed new_fd (c ∷ cs) (h, hs) =
    by_flag new_fd c cs (on_connect new_fd cs) c.busy_flag refl h (connect-Placed new_fd cs hs)

-- A connection that comes in a state reached goes to the first child that is not marked busy, where that
-- waits for it with nothing on the way in either direction. Otherwise that child has ended, and the
-- write to its socket kills the parent. Where all children are marked busy nothing is sent: the connection
-- is closed without the file.
pub Reach-Placed :
    (numbers : List (ℕ × ℕ)) (cs : List Child) (new_fd : ℤ)
    → Reach numbers serving cs
    → Placed new_fd cs (on_connect new_fd cs)
Reach-Placed numbers cs new_fd r =
    connect-Placed new_fd cs (reach-Everyone Balanced balanced numbers serving cs r)
