-- ===== src/TicketProcesses/Ends.antt =====
-- The sale ends, and all tickets are sold.
use linux_os_coding.Base.{
  ℕ, zero, suc, ◌+◌, ◌≤◌, ◌≡◌, ◌⊎◌, inl, inr, refl, ap, ◌∙◌, Option, none, some, List, [], ◌∷◌,
  length, arith,
}
use linux_os_coding.TicketProcesses.{
  Process, selling, finished, Sale, start, sell, Who, turn, turns,
}

abbrev pub sold_by : Process → ℕ
sold_by (selling n) = n
sold_by (finished n) = n

abbrev pub open_if : Process → ℕ
open_if (selling n) = 1
open_if (finished n) = 0

-- The turns that are left.
abbrev pub left : Sale → ℕ
left s = s.tickets + open_if s.child + open_if s.parent

abbrev pub all_tickets : Sale → ℕ
all_tickets s = s.tickets + sold_by s.child + sold_by s.parent

-- A process leaves its loop where there is no ticket.
abbrev pub Right : Process → ℕ → Type 0
Right (selling sold) n = Unit
Right (finished sold) n = n ≡ 0

-- A turn uses up one of those that are left, and loses no ticket.
abbrev Uses : Process → ℕ → Option (Process × ℕ) → Type 0
Uses p n none = Unit
Uses p n (some (p', n')) =
    (suc (n' + open_if p') ≡ n + open_if p)
    × (n' + sold_by p' ≡ n + sold_by p)
    × (n' ≤ n)
    × Right p' n'

fewer : (p : Process) (n n' : ℕ) → n' ≤ n → Right p n → Right p n'
fewer (selling sold) n n' le r = tt
fewer (finished sold) n n' le r = omega (arith, le, r)

sell-Uses : (p : Process) (n : ℕ) → Uses p n (sell p n)
unfolding sell
sell-Uses (selling sold) zero = (omega arith, refl, omega arith, refl)
sell-Uses (selling sold) (suc n) = (omega arith, omega arith, omega arith, tt)
sell-Uses (finished sold) n = tt

abbrev pub AllRight : Sale → Type 0
AllRight s = Right s.child s.tickets × Right s.parent s.tickets

-- `k` turns have been made.
abbrev pub After : ℕ → Sale → Option Sale → Type 0
After k s none = Unit
After k s (some s') = (k + left s' ≡ left s) × (all_tickets s' ≡ all_tickets s) × AllRight s'

child_turn :
    (s : Sale) (o : Option (Process × ℕ))
    → AllRight s
    → Uses s.child s.tickets o
    → After 1 s (elim o [ none ↦ none | some r ↦ some (record s { child = r.0; tickets = r.1 }) ])
child_turn s none a u = tt
child_turn s (some (p, n)) (c, q) (u, v, le, r) =
    (omega (arith, u), omega (arith, v), (r, fewer s.parent s.tickets n le q))

parent_turn :
    (s : Sale) (o : Option (Process × ℕ))
    → AllRight s
    → Uses s.parent s.tickets o
    → After 1 s (elim o [ none ↦ none | some r ↦ some (record s { parent = r.0; tickets = r.1 }) ])
parent_turn s none a u = tt
parent_turn s (some (p, n)) (c, q) (u, v, le, r) =
    (omega (arith, u), omega (arith, v), (fewer s.child s.tickets n le c, r))

turn-After : (w : Who) (s : Sale) → AllRight s → After 1 s (turn w s)
unfolding turn
turn-After Who.child s a = child_turn s (sell s.child s.tickets) a (sell-Uses s.child s.tickets)
turn-After Who.parent s a = parent_turn s (sell s.parent s.tickets) a (sell-Uses s.parent s.tickets)

next-After :
    (k : ℕ) (s s1 : Sale) (o : Option Sale) → After 1 s (some s1) → After k s1 o → After (suc k) s o
next-After k s s1 none a b = tt
next-After k s s1 (some s2) (a, c, r) (b, d, r') = (omega (arith, a, b), d ∙ c, r')

After-elim :
    (k : ℕ) (s : Sale) (o : Option Sale) (rest : Sale → Option Sale)
    → After 1 s o
    → ((s1 : Sale) → AllRight s1 → After k s1 (rest s1))
    → After (suc k) s (elim o [ none ↦ none | some s1 ↦ rest s1 ])
After-elim k s none rest a h = tt
After-elim k s (some s1) rest a h = next-After k s s1 (rest s1) a (h s1 a.2)

turns-After : (ws : List Who) (s : Sale) → AllRight s → After (length ws) s (turns ws s)
unfolding turns
turns-After [] s a = (omega arith, refl, a)
turns-After (w ∷ ws) s a =
    After-elim (length ws) s (turn w s) (turns ws) (turn-After w s a)
      (λ s1 a1. turns-After ws s1 a1)

-- Some process can make a turn.
abbrev pub CanGoOn : Sale → Type 0
CanGoOn s = (w : Who) × (s' : Sale) × (turn w s ≡ some s')

-- All tickets are sold.
abbrev pub SoldOut : Sale → Type 0
SoldOut s = (s.tickets ≡ 0) × (sold_by s.child + sold_by s.parent ≡ 50)

can_sell : (sold n : ℕ) → (r : Process × ℕ) × (sell (selling sold) n ≡ some r)
unfolding sell
can_sell sold zero = ((finished sold, 0), refl)
can_sell sold (suc n) = ((selling (suc sold), n), refl)

child_goes_on : (s : Sale) (r : Process × ℕ) → sell s.child s.tickets ≡ some r → CanGoOn s
unfolding turn
child_goes_on s r e = (Who.child, record s { child = r.0; tickets = r.1 }, rw (e, turn) refl)

parent_goes_on : (s : Sale) (r : Process × ℕ) → sell s.parent s.tickets ≡ some r → CanGoOn s
unfolding turn
parent_goes_on s r e = (Who.parent, record s { parent = r.0; tickets = r.1 }, rw (e, turn) refl)

ends : (s : Sale) → AllRight s → all_tickets s ≡ 50 → CanGoOn s ⊎ SoldOut s
ends s a e = go s.child s.parent refl refl
  where
    go : (c p : Process) → s.child ≡ c → s.parent ≡ p → CanGoOn s ⊎ SoldOut s
    go (selling sold) p ec ep =
        let (r, run) = can_sell sold s.tickets in
        inl (child_goes_on s r (ap (λ (x : Process). sell x s.tickets) ec ∙ run))
    go (finished sold) (selling sold') ec ep =
        let (r, run) = can_sell sold' s.tickets in
        inl (parent_goes_on s r (ap (λ (x : Process). sell x s.tickets) ep ∙ run))
    go (finished sold) (finished sold') ec ep =
        let none_left : s.tickets ≡ 0 = rw ec at a.0 in inr (none_left, omega (arith, none_left, e))

-- Whatever the order of the turns: with those made, 52 are all that there will be, and either a process
-- can make a turn or no ticket is left and the two have sold 50.
pub turns-SoldOut :
    (ws : List Who) (s : Sale)
    → turns ws start ≡ some s
    → (length ws + left s ≡ 52) × (CanGoOn s ⊎ SoldOut s)
unfolding start
turns-SoldOut ws s e =
    let (count, kept, right) : After (length ws) start (some s) =
      rw e at (turns-After ws start (tt, tt)) in
    (count, ends s right kept)
