-- ===== src/ProcessPool/Leave.antt =====
-- The order to exit never reaches a child: the sender's first buffer has four bytes, the receiver's five.
use linux_os_coding.Base.{
  ℕ, ◌+◌, ◌*◌, ◌%◌, ◌^◌, ◌-◌, ◌<◌, ◌≡◌, refl, ◌≢◌, false, List, [], ◌∷◌, ◌++◌, take, drop, arith,
  lt→ltb,
}
use linux_os_coding.Base.Int.{ℤ, pos, negsuc, eqb_ℤ}
use linux_os_coding.Base.Text.{Text}
use linux_os_coding.Base.Bytes.{le_bytes, le_value, int_bytes, int_value}
use linux_os_coding.ProcessPool.{
  Parcel, Child, Parent, receiving, sending, ended, failed, child_fail, send_fd, recv_fd, overwrite,
  child_receive, child_notify, Turn, Reach,
}
use linux_os_coding.ProcessPool.Everyone.{Everyone, Everyone-map, Kept, reach-Everyone}

-- The fourth byte of a flag in memory is 0.
abbrev pub Low : Text → Type 0
Low (a ∷ b ∷ c ∷ d ∷ []) = (a < 256) × (b < 256) × (c < 256) × (d ≡ 0)
Low s = ⊥

-- It is not -1.
flag_not_minus_one : (s : Text) → Low s → eqb_ℤ (negsuc 0) (int_value s) ≡ false
unfolding int_value le_value
flag_not_minus_one (a ∷ b ∷ c ∷ d ∷ []) (ha, hb, hc, hd) =
    rw (lt→ltb (a + 256 * (b + 256 * (c + 256 * (d + 256 * 0)))) (2 ^ 31) (omega arith))
      (ground arith)
flag_not_minus_one [] h = absurd h
flag_not_minus_one (a ∷ []) h = absurd h
flag_not_minus_one (a ∷ b ∷ []) h = absurd h
flag_not_minus_one (a ∷ b ∷ c ∷ []) h = absurd h
flag_not_minus_one (a ∷ b ∷ c ∷ d ∷ e ∷ s) h = absurd h

-- Of the flag's bytes the first ends up in the text buffer.
le_bytes-Low : (n : ℕ) (s : Text) → Low s → Low (overwrite s (drop 1 (le_bytes 4 n)))
unfolding le_bytes
le_bytes-Low n (a ∷ b ∷ c ∷ d ∷ []) (ha, hb, hc, hd) = (omega arith, omega arith, omega arith, hd)
le_bytes-Low n [] h = absurd h
le_bytes-Low n (a ∷ []) h = absurd h
le_bytes-Low n (a ∷ b ∷ []) h = absurd h
le_bytes-Low n (a ∷ b ∷ c ∷ []) h = absurd h
le_bytes-Low n (a ∷ b ∷ c ∷ d ∷ e ∷ s) h = absurd h

-- A parcel of `send_fd`.
abbrev pub Sent : Parcel → Type 0
Sent p = (fd : ℤ) × (flag : ℤ) × (p ≡ send_fd fd flag)

drop-le_bytes : (n : ℕ) → take 4 (drop 1 (le_bytes 4 n)) ≡ drop 1 (le_bytes 4 n)
unfolding le_bytes
drop-le_bytes n = refl

flag-Low :
    (fd flag : ℤ) (s : Text) → Low s → Low (overwrite s (take 4 (drop 5 (send_fd fd flag).bytes)))
unfolding send_fd int_bytes
flag-Low fd (pos n) s h = rw (drop-le_bytes n) (le_bytes-Low n s h)
flag-Low fd (negsuc n) s h =
    let m = 2 ^ 32 - 1 - n % 2 ^ 32 in rw (drop-le_bytes m) (le_bytes-Low m s h)

Sent-Low : (p : Parcel) (s : Text) → Sent p → Low s → Low (recv_fd p s).1
unfolding recv_fd
Sent-Low p s (fd, flag, e) h = rw e (flag-Low fd flag s h)

abbrev pub AllSent : List Parcel → Type 0
AllSent [] = Unit
AllSent (p ∷ ps) = Sent p × AllSent ps

AllSent-append : (ps : List Parcel) (p : Parcel) → AllSent ps → Sent p → AllSent (ps ++ p ∷ [])
AllSent-append [] p hs h = (h, tt)
AllSent-append (q ∷ ps) p (g, hs) h = (g, AllSent-append ps p hs h)

-- A child that the flag has not ended and will not end.
abbrev pub Deaf : Parent → Child → Type 0
Deaf p c = (c.life ≢ ended) × Low c.exit_flag × AllSent c.inbox

receiving≢ended : receiving ≢ ended
receiving≢ended e = cc e

sending≢ended : (fd : ℤ) → sending fd ≢ ended
sending≢ended fd e = cc e

failed≢ended : failed ≢ ended
failed≢ended e = cc e

receive-Deaf :
    (parent : Parent) (c : Child) (p : Parcel) (more : List Parcel)
    → c.inbox ≡ p ∷ more
    → Deaf parent c
    → Deaf parent (child_receive p more c)
unfolding child_receive
receive-Deaf parent c p more e (live, low, all) =
    let (sent, rest) : Sent p × AllSent more = rw e at all in
    let low' : Low (recv_fd p c.exit_flag).1 = Sent-Low p c.exit_flag sent low in
    (
      rw (flag_not_minus_one (recv_fd p c.exit_flag).1 low')
          (sending≢ended (recv_fd p c.exit_flag).0),
      low',
      rest,
    )

Turn-Deaf : (parent : Parent) (c c' : Child) → Turn c c' → Deaf parent c → Deaf parent c'
unfolding child_notify child_fail
Turn-Deaf parent c _ (Turn.receive _ p more l e) d = receive-Deaf parent c p more e d
Turn-Deaf parent c _ (Turn.notify _ fd l) d = (receiving≢ended, d.1, d.2)
Turn-Deaf parent c _ (Turn.fail _ l) d = (failed≢ended, d.1, d.2)

deaf : Kept Deaf
unfolding int_bytes le_bytes
deaf = record {
  at_start = λ n. (receiving≢ended, (omega arith, omega arith, omega arith, refl), tt);
  by_connect = λ new_fd c idle alive (live, low, all).
      (live, low, AllSent-append c.inbox _ all (new_fd, pos 0, refl));
  by_notice = λ c written d. d;
  by_order =
      λ c alive (live, low, all). (live, low, AllSent-append c.inbox _ all (pos 0, negsuc 0, refl));
  by_turn = Turn-Deaf;
  by_kill = λ p c d. d;
}

-- The child has not come to its `exit(0)`.
abbrev pub NotOrdered : Child → Type 0
NotOrdered c = c.life ≢ ended

-- In every state that the server reaches, also behind the order to exit, whatever the order of the turns
-- and whichever children have failed: no child has come to the `exit(0)` that the flag of the order is for.
pub Reach-NotOrdered :
    (numbers : List (ℕ × ℕ)) (parent : Parent) (cs : List Child)
    → Reach numbers parent cs
    → Everyone NotOrdered cs
Reach-NotOrdered numbers parent cs r =
    Everyone-map (Deaf parent) NotOrdered cs (λ c d. d.0)
      (reach-Everyone Deaf deaf numbers parent cs r)
