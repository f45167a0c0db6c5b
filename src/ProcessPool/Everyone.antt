-- ===== src/ProcessPool/Everyone.antt =====
-- What holds of every child, and when the steps keep it.
use linux_os_coding.Base.{
  ℕ, ◌≡◌, ◌≢◌, ◌⊎◌, refl, if◌then◌else◌, Bool, true, false, List, [], ◌∷◌, ◌==◌, ==_iff, Bool-cases,
  inl, inr, drop,
}
use linux_os_coding.Base.Int.{ℤ, pos, negsuc}
use linux_os_coding.ProcessPool.{
  Child, Parent, serving, leaving, killed, is_dead, new_child, make_child_process, post, on_connect,
  on_notice, on_exit, Readable, Turn, OneTurn, Step, Reach,
}

-- `P` may depend on where the parent is.
abbrev pub Everyone : (P : Child → Type 0) → List Child → Type 0
Everyone P [] = Unit
Everyone P (c ∷ cs) = P c × Everyone P cs

pub Everyone-map :
    (P Q : Child → Type 0) (cs : List Child)
    → ((c : Child) → P c → Q c)
    → Everyone P cs
    → Everyone Q cs
Everyone-map P Q [] f h = tt
Everyone-map P Q (c ∷ cs) f (h, hs) = (f c h, Everyone-map P Q cs f hs)

abbrev pub given : ℤ → Child → Child
given new_fd c = record (post new_fd (pos 0) c) { busy_flag = true }

abbrev pub heard : Child → Child
heard c = record c { outbox = drop 1 c.outbox; busy_flag = false }

-- A property of a child that every step keeps.
pub record Kept (P : Parent → Child → Type 0) : Type 0 where
  pub at_start : (n : ℕ × ℕ) → P serving (new_child n)
  pub by_connect :
      (new_fd : ℤ) (c : Child)
      → c.busy_flag ≡ false
      → is_dead c.life ≡ false
      → P serving c
      → P serving (given new_fd c)
  pub by_notice :
      (c : Child) → (c.outbox ≢ []) ⊎ (is_dead c.life ≡ true) → P serving c → P serving (heard c)
  pub by_order :
      (c : Child) → is_dead c.life ≡ false → P serving c → P leaving (post (pos 0) (negsuc 0) c)
  pub by_turn : (p : Parent) (c c' : Child) → Turn c c' → P p c → P p c'
  pub by_kill : (p : Parent) (c : Child) → P p c → P killed c

module _ (P : Parent → Child → Type 0) (k : Kept P) where
  start-Everyone : (numbers : List (ℕ × ℕ)) → Everyone (P serving) (make_child_process numbers)
  unfolding make_child_process
  start-Everyone [] = tt
  start-Everyone (n ∷ numbers) = (k.at_start n, start-Everyone numbers)

  all_killed : (p : Parent) (cs : List Child) → Everyone (P p) cs → Everyone (P killed) cs
  all_killed p cs h = Everyone-map (P p) (P killed) cs (k.by_kill p) h

  -- The parent has gone on as `p`, or has been killed.
  abbrev Went : Parent → Parent × List Child → Type 0
  Went p (p', cs) = ((p' ≡ p) ⊎ (p' ≡ killed)) × Everyone (P p') cs

  in_front :
      (p : Parent) (c : Child) (rest : Parent × List Child)
      → P p c
      → Went p rest
      → Went p (rest.0, c ∷ rest.1)
  in_front p c (p', cs) h (inl same, hs) = (inl same, (rw same h, hs))
  in_front p c (p', cs) h (inr dead, hs) = (inr dead, (rw dead (k.by_kill p c h), hs))

  connect_case :
      (new_fd : ℤ) (c : Child) (cs : List Child) (rest : Parent × List Child) (busy dead : Bool)
      → c.busy_flag ≡ busy
      → is_dead c.life ≡ dead
      → P serving c
      → Everyone (P serving) cs
      → Went serving rest
      → Went serving (
          if busy
          then (rest.0, c ∷ rest.1)
          else if dead
          then (killed, c ∷ cs)
          else (serving, given new_fd c ∷ cs))
  connect_case new_fd c cs rest true dead b d h hs w = in_front serving c rest h w
  connect_case new_fd c cs rest false true b d h hs w =
      (inr refl, (k.by_kill serving c h, all_killed serving cs hs))
  connect_case new_fd c cs rest false false b d h hs w =
      (inl refl, (k.by_connect new_fd c b d h, hs))

  connect-Went :
      (new_fd : ℤ) (cs : List Child) → Everyone (P serving) cs → Went serving (on_connect new_fd cs)
  unfolding on_connect
  connect-Went new_fd [] h = (inl refl, tt)
  connect-Went new_fd (c ∷ cs) (h, hs) =
      connect_case new_fd c cs (on_connect new_fd cs) c.busy_flag (is_dead c.life) refl refl h hs
        (connect-Went new_fd cs hs)

  notice-Everyone :
      (fd : ℕ) (cs : List Child)
      → Readable fd cs
      → Everyone (P serving) cs
      → Everyone (P serving) (on_notice fd cs)
  unfolding on_notice
  notice-Everyone fd [] r h = tt
  notice-Everyone fd (c ∷ cs) (r, rs) (h, hs) = elim (Bool-cases (c.fds == fd)) [
    | inl same ↦
        rw same (k.by_notice c (r ((==_iff c.fds fd).0 same)) h, notice-Everyone fd cs rs hs)
    | inr other ↦ rw other (h, notice-Everyone fd cs rs hs)
  ]

  order_case :
      (c : Child) (cs : List Child) (rest : Parent × List Child) (dead : Bool)
      → is_dead c.life ≡ dead
      → P serving c
      → Everyone (P serving) cs
      → Went leaving rest
      → Went leaving
          (if dead then (killed, c ∷ cs) else (rest.0, post (pos 0) (negsuc 0) c ∷ rest.1))
  order_case c cs rest true d h hs w = (inr refl, (k.by_kill serving c h, all_killed serving cs hs))
  order_case c cs rest false d h hs w =
      in_front leaving (post (pos 0) (negsuc 0) c) rest (k.by_order c d h) w

  order-Went : (cs : List Child) → Everyone (P serving) cs → Went leaving (on_exit cs)
  unfolding on_exit
  order-Went [] h = (inl refl, tt)
  order-Went (c ∷ cs) (h, hs) =
      order_case c cs (on_exit cs) (is_dead c.life) refl h hs (order-Went cs hs)

  turn-Everyone :
      (p : Parent) (cs cs' : List Child) → OneTurn cs cs' → Everyone (P p) cs → Everyone (P p) cs'
  turn-Everyone p _ _ (OneTurn.here c c' cs t) (h, hs) = (k.by_turn p c c' t h, hs)
  turn-Everyone p _ _ (OneTurn.there c cs cs' t) (h, hs) = (h, turn-Everyone p cs cs' t hs)

  step-Everyone :
      (p : Parent) (cs : List Child) (p' : Parent) (cs' : List Child)
      → Step p cs p' cs'
      → Everyone (P p) cs
      → Everyone (P p') cs'
  step-Everyone _ _ _ _ (Step.connect new_fd cs) h = (connect-Went new_fd cs h).1
  step-Everyone _ _ _ _ (Step.notice fd cs r) h = notice-Everyone fd cs r h
  step-Everyone _ _ _ _ (Step.exit_order cs) h = (order-Went cs h).1
  step-Everyone _ _ _ _ (Step.turn p cs cs' alive t) h = turn-Everyone p cs cs' t h

  pub reach-Everyone :
      (numbers : List (ℕ × ℕ)) (p : Parent) (cs : List Child)
      → Reach numbers p cs
      → Everyone (P p) cs
  reach-Everyone numbers _ _ Reach.start = start-Everyone numbers
  reach-Everyone numbers _ _ (Reach.next p p' cs cs' r s) =
      step-Everyone p cs p' cs' s (reach-Everyone numbers p cs r)
