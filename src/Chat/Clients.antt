-- ===== src/Chat/Clients.antt =====
-- The list of the clients, looked at from one client in it.
use linux_os_coding.Base.{
  ℕ, zero, suc, ◌<◌, ◌≡◌, ◌≢◌, refl, sym, ap, ◌∙◌, ok, Option, none, some, List, [], ◌∷◌, ◌++◌,
  append_assoc, append-nil, length, arith, if◌then◌else◌, Bool-cases, inl, inr,
}
use linux_os_coding.Base.Text.{Text}
use linux_os_coding.Base.Int.{ℤ}
use linux_os_coding.Memory.{Ptr, null, Memory, write, load-ok}
use linux_os_coding.LinkList.{Node, Ends, cell}
use linux_os_coding.LinkList.Shape.{Cells, Apart, Linked, end, IsList, frame}
use linux_os_coding.LinkList.Place.{write_elsewhere, written}
use linux_os_coding.LinkList.Delete.{first, next_cell}
use linux_os_coding.Chat.{Client, skips, send_text}

module _ {D : Type 0} where
  pub at_middle :
      (h : Memory (Node D)) (p : Ptr) (o : Option D) (xs ys : Cells D)
      → Linked h p o (xs ++ ys)
      → (o' : Option D) × (end p xs ≢ null) × (h (end p xs) ≡ some (cell o' (first ys)))
  at_middle h p o [] ys l = let (np, hp) = next_cell h p o ys l in (o, np, hp)
  at_middle h p o ((q, d) ∷ xs) ys (np, hp, off, more) = at_middle h q (some d) xs ys more

  pub middle_node :
      (h : Memory (Node D)) (p q : Ptr) (o : Option D) (d : D) (xs ys : Cells D)
      → Linked h p o (xs ++ (q, d) ∷ ys)
      → (q ≢ null) × (h q ≡ some (cell (some d) (first ys)))
  middle_node h p q o d [] ys (np, hp, off, more) = next_cell h q (some d) ys more
  middle_node h p q o d ((r, c) ∷ xs) ys (np, hp, off, more) =
      middle_node h r q (some c) d xs ys more

  pub end-append : (p : Ptr) (xs ys : Cells D) → end p (xs ++ ys) ≡ end (end p xs) ys
  end-append p [] ys = refl
  end-append p ((q, d) ∷ xs) ys = end-append q xs ys

  Apart-middle :
      (a q : Ptr) (d d' : D) (xs ys : Cells D)
      → Apart a (xs ++ (q, d) ∷ ys)
      → (a ≢ q) × Apart a (xs ++ (q, d') ∷ ys)
  Apart-middle a q d d' [] ys (ne, off) = (ne, (ne, off))
  Apart-middle a q d d' ((r, c) ∷ xs) ys (ne, off) =
      let (ne', off') = Apart-middle a q d d' xs ys off in (ne', (ne, off'))

  own_data :
      (h : Memory (Node D)) (q : Ptr) (o o' : Option D) (ys : Cells D)
      → Linked h q o ys
      → Linked (write h q (some (cell o' (first ys)))) q o' ys
  own_data h q o o' [] (nq, hq) = (nq, written h q _)
  own_data h q o o' ((s, c) ∷ ys) (nq, hq, off, more) =
      (nq, written h q _, off, frame h q _ s (some c) ys off.0 off.1 more)

  -- Other data in one node.
  pub renamed-Linked :
      (h : Memory (Node D)) (p q : Ptr) (o : Option D) (d d' : D) (xs ys : Cells D)
      → Linked h p o (xs ++ (q, d) ∷ ys)
      → Linked (write h q (some (cell (some d') (first ys)))) p o (xs ++ (q, d') ∷ ys)
  renamed-Linked h p q o d d' [] ys (np, hp, (ne, off), more) = (
    np,
    write_elsewhere h q p _ hp (λ x. ne (sym x)),
    (ne, off),
    own_data h q (some d) (some d') ys more,
  )
  renamed-Linked h p q o d d' ((r, c) ∷ xs) ys (np, hp, (ne, off), more) =
      let (pq, off') = Apart-middle p q d d' xs ys off in
      (
        np,
        write_elsewhere h q p _ hp (λ x. pq (sym x)),
        (ne, off'),
        renamed-Linked h r q (some c) d d' xs ys more,
      )

  pub renamed-IsList :
      (h : Memory (Node D)) (e : Ends) (q : Ptr) (d d' : D) (xs ys : Cells D)
      → IsList h e (xs ++ (q, d) ∷ ys)
      → IsList (write h q (some (cell (some d') (first ys)))) e (xs ++ (q, d') ∷ ys)
  renamed-IsList h e q d d' xs ys is = record {
    linked = renamed-Linked h e.head q none d d' xs ys is.linked;
    rear_end =
        is.rear_end
        ∙ end-append e.head xs ((q, d) ∷ ys)
        ∙ sym (end-append e.head xs ((q, d') ∷ ys));
  }

abbrev pub fds_of : Cells Client → List ℤ
fds_of [] = []
fds_of ((q, d) ∷ xs) = d.client_fd ∷ fds_of xs

pub fds_of-renamed :
    (q : Ptr) (d d' : Client) (xs ys : Cells Client)
    → d'.client_fd ≡ d.client_fd
    → fds_of (xs ++ (q, d') ∷ ys) ≡ fds_of (xs ++ (q, d) ∷ ys)
fds_of-renamed q d d' [] ys e = ap (λ fd. fd ∷ fds_of ys) e
fds_of-renamed q d d' ((r, c) ∷ xs) ys e =
    ap (λ fds. c.client_fd ∷ fds) (fds_of-renamed q d d' xs ys e)

-- One copy of a text for each descriptor but the one that is skipped.
unfoldable pub copies : Option ℤ → Text → List ℤ → List (ℤ × Text)
copies skip text [] = []
copies skip text (fd ∷ fds) =
    let rest = copies skip text fds in if skips skip fd then rest else (fd, text) ∷ rest

module _ (skip : Option ℤ) (text : Text) where
  send_step :
      (k : ℕ) (h : Memory (Node Client)) (p q r : Ptr) (o : Option Client) (w : Client)
      (sent : List (ℤ × Text))
      → p ≢ null
      → h p ≡ some (cell o q)
      → q ≢ null
      → h q ≡ some (cell (some w) r)
      → send_text (suc k) p skip text h sent
        ≡ send_text k q skip text h
            (if skips skip w.client_fd then sent else sent ++ (w.client_fd, text) ∷ [])
  unfolding send_text
  send_step k h p q r o w sent np hp nq hq = ground (arith, load-ok h p np hp, load-ok h q nq hq)

  copies_step :
      (sent : List (ℤ × Text)) (fd : ℤ) (fds : List ℤ)
      → (if skips skip fd then sent else sent ++ (fd, text) ∷ []) ++ copies skip text fds
        ≡ sent ++ copies skip text (fd ∷ fds)
  unfolding copies
  copies_step sent fd fds = elim (Bool-cases (skips skip fd)) [
    | inl e ↦ rw (e, copies) refl
    | inr e ↦ rw (e, copies) (append_assoc sent ((fd, text) ∷ []) (copies skip text fds))
  ]

  pub send_text-copies :
      (k : ℕ) (h : Memory (Node Client)) (p : Ptr) (o : Option Client) (xs : Cells Client)
      (sent : List (ℤ × Text))
      → Linked h p o xs
      → length xs < k
      → send_text k p skip text h sent ≡ ok (sent ++ copies skip text (fds_of xs))
  send_text-copies zero h p o xs sent l enough = absurd (omega arith)
  send_text-copies (suc k) h p o [] sent (np, hp) enough =
      unfold send_text copies in rw (load-ok h p np hp, send_text) (ap ok (sym (append-nil sent)))
  send_text-copies (suc k) h p o ((q, w) ∷ xs) sent (np, hp, off, more) enough =
      let (nq, hq) = next_cell h q (some w) xs more in
      send_step k h p q (first xs) o w sent np hp nq hq
      ∙ send_text-copies k h q (some w) xs _ more (omega arith)
      ∙ ap ok (copies_step sent w.client_fd (fds_of xs))
