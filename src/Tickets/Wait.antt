-- ===== src/Tickets/Wait.antt =====
-- The windows close before more tickets come.
use linux_os_coding.Base.{
  ℕ, zero, suc, ◌+◌, ◌≡◌, refl, sym, Bool, true, false, List, [], ◌∷◌, ◌++◌, replicate, ◌==◌, arith,
  append_assoc, append-nil,
}
use linux_os_coding.Tickets.{
  Window, selling, closed, top, waiting, sale_windows, set_windows, signal_if, Sells, Reach,
}

abbrev pub AllClosed : List Window → Type 0
AllClosed [] = Unit
AllClosed (closed n ∷ ws) = AllClosed ws
AllClosed (selling n ∷ ws) = ⊥

module _ (windows : ℕ) where
  signal_top : (signal : Bool) (k : ℕ) → signal_if signal (top k) ≡ top k
  unfolding signal_if
  signal_top true k = refl
  signal_top false k = refl

  at_top :
      {ws : List Window} {n : ℕ} (signal : Bool) (k : ℕ)
      → Reach windows ws n (signal_if signal (top k))
      → Reach windows ws n (top k)
  at_top signal k r = rw (signal_top signal k) at r

  -- The first window sells all that is left.
  sell_out :
      (n total : ℕ) (ws : List Window)
      → Reach windows (selling total ∷ ws) n (top 3)
      → Reach windows (selling (total + n) ∷ ws) 0 (top 3)
  unfolding sale_windows
  sell_out zero total ws r = let e : total ≡ total + 0 = omega arith in rw e at r
  sell_out (suc n) total ws r =
      let e : suc total + n ≡ total + suc n = omega arith in
      rw e at (
        sell_out n (suc total) ws (
          at_top (n == 0) 3 (
            Reach.sale _ _ (suc n) n (n == 0) (top 3) r
              (Sells.here total (suc n) n (selling (suc total)) (n == 0) ws refl))))

  past :
      (front ws ws' : List Window) (n n' : ℕ) (signal : Bool)
      → Sells ws n ws' n' signal
      → Sells (front ++ ws) n (front ++ ws') n' signal
  past [] ws ws' n n' signal s = s
  past (w ∷ front) ws ws' n n' signal s =
      Sells.there w (front ++ ws) (front ++ ws') n n' signal (past front ws ws' n n' signal s)

  AllClosed-append :
      (front : List Window) (n : ℕ) → AllClosed front → AllClosed (front ++ closed n ∷ [])
  AllClosed-append [] n h = tt
  AllClosed-append (closed k ∷ front) n h = AllClosed-append front n h
  AllClosed-append (selling k ∷ front) n h = absurd h

  -- Without tickets the windows close one after the other.
  abbrev ClosedBehind : Type 0
  ClosedBehind = (ws' : List Window) × AllClosed ws' × Reach windows ws' 0 (top 3)

  close_all :
      (k : ℕ) (front : List Window)
      → AllClosed front
      → Reach windows (front ++ replicate k (selling 0)) 0 (top 3)
      → ClosedBehind
  unfolding sale_windows
  close_all zero front h r = (front, h, rw (append-nil front) at r)
  close_all (suc k) front h r =
      let rest : List Window = replicate k (selling 0) in
      let next = at_top false 3 (
        Reach.sale (front ++ selling 0 ∷ rest) (front ++ closed 0 ∷ rest) 0 0 false (top 3) r (
          past front (selling 0 ∷ rest) (closed 0 ∷ rest) 0 0 false
            (Sells.here 0 0 0 (closed 0) false rest refl))) in
      close_all k (front ++ closed 0 ∷ []) (AllClosed-append front 0 h)
        (rw (sym (append_assoc front (closed 0 ∷ []) rest)) at next)

  refill : (ws : List Window) → Reach windows ws 0 (top 3) → Reach windows ws 20 (waiting 1)
  unfolding set_windows
  refill ws r =
      Reach.put ws 20 20 (top 2) (waiting 1) (Reach.put ws 0 20 (top 3) (top 2) r refl) refl

-- A state with 20 tickets left in which all windows are closed and the other thread waits for a signal.
abbrev pub Stuck : ℕ → Type 0
Stuck windows = (ws : List Window) × AllClosed ws × Reach windows ws 20 (waiting 1)

-- With any number of windows a state can be reached in which all of them are closed, 20 tickets are left, and
-- the other thread waits for a signal.
pub Reach-Stuck : (others : ℕ) → Stuck (suc others)
unfolding sale_windows
Reach-Stuck others =
    let first = sell_out (suc others) 20 0 (replicate others (selling 0)) Reach.start in
    let rest : List Window = replicate others (selling 0) in
    let shut = at_top (suc others) false 3 (
      Reach.sale (selling 20 ∷ rest) (closed 20 ∷ rest) 0 0 false (top 3) first
        (Sells.here 20 0 0 (closed 20) false rest refl)) in
    let (ws, h, r) = close_all (suc others) others (closed 20 ∷ []) tt shut in
    (ws, h, refill (suc others) ws r)
