-- ===== src/Tickets/Count.antt =====
-- No ticket is lost and none is sold twice.
use linux_os_coding.Base.{
  ℕ, zero, suc, ◌+◌, ◌*◌, ◌≤◌, ==_iff, ◌≡◌, refl, ◌∙◌, Bool, true, false, Bool-cases, inl, inr,
  Option, none, some, List, [], ◌∷◌, replicate, ltb, arith,
}
use linux_os_coding.Tickets.{
  Window, selling, closed, Setter, top, waiting, woken, over, sale_windows, set_windows, signal_if,
  Sells, Reach,
}

abbrev pub sold_by : Window → ℕ
sold_by (selling n) = n
sold_by (closed n) = n

abbrev pub sold : List Window → ℕ
sold [] = 0
sold (w ∷ ws) = sold_by w + sold ws

-- The rounds in which tickets are still to be put out.
abbrev pub rounds : Setter → ℕ
rounds (top k) = k
rounds (waiting k) = suc k
rounds (woken k) = suc k
rounds over = 0

-- A woken thread finds no tickets.
abbrev pub Empty : Setter → ℕ → Type 0
Empty (woken k) n = n ≡ 0
Empty st n = Unit

record Counts (ws : List Window) (n : ℕ) (st : Setter) : Type 0 where
  pub all : sold ws + n + 20 * rounds st ≡ 80
  pub empty : Empty st n

-- What a turn of a window keeps; it signals where it has sold the last ticket.
abbrev Kept : (before n after n' : ℕ) → Bool → Type 0
Kept before n after n' signal = (after + n' ≡ before + n) × (n' ≤ n) × (signal ≡ true → n' ≡ 0)

sale-Kept :
    (total n : ℕ)
    → Kept total n
        (sold_by (sale_windows total n).0)
        (sale_windows total n).1
        (sale_windows total n).2
unfolding sale_windows
sale-Kept total zero = (refl, omega arith, λ e. refl)
sale-Kept total (suc n) = (omega arith, omega arith, λ e. (==_iff n 0).0 e)

sells-Kept :
    (ws ws' : List Window) (n n' : ℕ) (signal : Bool)
    → Sells ws n ws' n' signal
    → Kept (sold ws) n (sold ws') n' signal
sells-Kept _ _ n n' signal (Sells.here total _ _ w _ ws e) =
    let (same, le, empty) : Kept total n (sold_by w) n' signal = rw e at (sale-Kept total n) in
    (omega (arith, same), le, empty)
sells-Kept _ _ n n' signal (Sells.there w ws ws' _ _ _ s) =
    let (same, le, empty) = sells-Kept ws ws' n n' signal s in (omega (arith, same), le, empty)

signal-rounds : (signal : Bool) (st : Setter) → rounds (signal_if signal st) ≡ rounds st
unfolding signal_if
signal-rounds true (top k) = refl
signal-rounds true (waiting k) = refl
signal-rounds true (woken k) = refl
signal-rounds true over = refl
signal-rounds false st = refl

signal-Empty :
    (signal : Bool) (st : Setter) (n n' : ℕ)
    → n' ≤ n
    → (signal ≡ true → n' ≡ 0)
    → Empty st n
    → Empty (signal_if signal st) n'
unfolding signal_if
signal-Empty true (top k) n n' le z e = tt
signal-Empty true (waiting k) n n' le z e = z refl
signal-Empty true (woken k) n n' le z e = z refl
signal-Empty true over n n' le z e = tt
signal-Empty false (top k) n n' le z e = tt
signal-Empty false (waiting k) n n' le z e = tt
signal-Empty false (woken k) n n' le z e = omega (arith, le, e)
signal-Empty false over n n' le z e = tt

-- A turn of the thread that puts tickets out.
abbrev Refilled : (before : ℕ) → Setter → (n : ℕ) → Option (Setter × ℕ) → Type 0
Refilled before st n none = Unit
Refilled before st n (some (st', n')) =
    (before + n' + 20 * rounds st' ≡ before + n + 20 * rounds st) × Empty st' n'

set-Refilled :
    (before : ℕ) (st : Setter) (n : ℕ) → Empty st n → Refilled before st n (set_windows st n)
unfolding set_windows
set-Refilled before (top zero) n e = (refl, tt)
set-Refilled before (top (suc k)) n e = elim (Bool-cases (ltb 0 n)) [
  | inl left ↦ rw left (refl, tt)
  | inr gone ↦ rw gone (ground arith, tt)
]
set-Refilled before (waiting k) n e = tt
set-Refilled before (woken k) n e = (omega (arith, e), tt)
set-Refilled before over n e = tt

none_sold : (windows : ℕ) → sold (replicate windows (selling 0)) ≡ 0
none_sold zero = refl
none_sold (suc k) = omega (arith, none_sold k)

counted :
    (windows : ℕ) (ws : List Window) (n : ℕ) (st : Setter) → Reach windows ws n st → Counts ws n st
counted windows _ _ _ Reach.start = record { all = omega (arith, none_sold windows); empty = tt }
counted windows _ _ _ (Reach.sale ws ws' n n' signal st r s) =
    let c = counted windows ws n st r in
    let (same, le, empty) = sells-Kept ws ws' n n' signal s in
    record {
      all = omega (arith, c.all, same, signal-rounds signal st);
      empty = signal-Empty signal st n n' le empty c.empty;
    }
counted windows _ _ _ (Reach.put ws n n' st st' r e) =
    let c = counted windows ws n st r in
    let (same, empty) : Refilled (sold ws) st n (some (st', n')) =
      rw e at (set-Refilled (sold ws) st n c.empty) in
    record { all = same ∙ c.all; empty = empty }

-- Whatever the order of the turns and the number of windows: the tickets sold, those left and 20 for each
-- round in which more are still to be put out, are 80 together.
pub Reach-sold :
    (windows : ℕ) (ws : List Window) (n : ℕ) (st : Setter)
    → Reach windows ws n st
    → sold ws + n + 20 * rounds st ≡ 80
Reach-sold windows ws n st r = (counted windows ws n st r).all
