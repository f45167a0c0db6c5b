-- ===== src/Chat/Walk.antt =====
-- A walk along the clients in which none of them has closed its connection.
use linux_os_coding.Base.{
  ℕ, zero, suc, ◌<◌, ◌≡◌, ◌≢◌, refl, sym, ap, ◌∙◌, ok, Option, none, some, List, [], ◌∷◌, ◌++◌,
  append_assoc, append-nil, length, length-append, is_empty, arith, Bool-cases, inl, inr,
}
use linux_os_coding.Base.Text.{Text}
use linux_os_coding.Base.Int.{ℤ}
use linux_os_coding.Memory.{Ptr, null, load-ok}
use linux_os_coding.LinkList.{cell}
use linux_os_coding.LinkList.Shape.{Cells, end, IsList}
use linux_os_coding.LinkList.Delete.{first}
use linux_os_coding.Chat.{Client, Chat, Recv, serve, client_loop}
use linux_os_coding.Chat.Clients.{at_middle, middle_node, end-append, fds_of, fds_of-renamed}
use linux_os_coding.Chat.Turn.{AllQuiet, named, all_named, deliveries, serve-Turn}

moved :
    (xs : Cells Client) (q : Ptr) (d : Client) (ys : Cells Client)
    → (xs ++ (q, d) ∷ []) ++ ys ≡ xs ++ (q, d) ∷ ys
moved xs q d ys = append_assoc xs ((q, d) ∷ []) ys

same_length :
    (xs : Cells Client) (q : Ptr) (d d' : Client) (ys : Cells Client) {fuel : ℕ}
    → length (xs ++ (q, d) ∷ ys) < fuel
    → length ((xs ++ (q, d') ∷ []) ++ ys) < fuel
same_length xs q d d' ys h =
    rw (moved xs q d' ys)
      (omega (arith, length-append xs ((q, d) ∷ ys), length-append xs ((q, d') ∷ ys)))

named-fd :
    (ready : ℤ → Option Recv) (d : Client) (o : Option Recv)
    → (named ready d o).client_fd ≡ d.client_fd
named-fd ready d none = refl
named-fd ready d (some r) = elim (Bool-cases (is_empty d.name)) [
  | inl e ↦ rw e refl
  | inr e ↦ rw e refl
]

sent_on :
    (sent sent1 added later : List (ℤ × Text)) (last : List (ℤ × Text))
    → sent1 ≡ sent ++ added
    → later ≡ last
    → sent1 ++ later ≡ sent ++ (added ++ last)
sent_on sent sent1 added later last e e' = rw (e, e') (append_assoc sent added last)

module _ (fuel : ℕ) (ready : ℤ → Option Recv) where
  walk_step :
      (k : ℕ) (s s' : Chat) (p q r : Ptr) (o : Option Client) (d : Client)
      → p ≢ null
      → s.heap p ≡ some (cell o q)
      → q ≢ null
      → s.heap q ≡ some (cell (some d) r)
      → serve fuel ready q d s ≡ ok s'
      → client_loop (suc k) fuel ready p s ≡ client_loop k fuel ready q s'
  unfolding client_loop
  walk_step k s s' p q r o d np hp nq hq run =
      ground (arith, load-ok s.heap p np hp, load-ok s.heap q nq hq, run)

  walk_ends :
      (k : ℕ) (s : Chat) (p : Ptr) (o : Option Client)
      → p ≢ null
      → s.heap p ≡ some (cell o null)
      → client_loop (suc k) fuel ready p s ≡ ok s
  unfolding client_loop
  walk_ends k s p o np hp = ground (arith, load-ok s.heap p np hp)

  -- From behind the clients of `xs`, which have had their turns.
  client_loop-from :
      (k : ℕ) (s : Chat) (xs ys : Cells Client)
      → IsList s.heap s.ends (xs ++ ys)
      → AllQuiet ready ys
      → length ys < k
      → length (xs ++ ys) < fuel
      → (s' : Chat) × (client_loop k fuel ready (end s.ends.head xs) s ≡ ok s')
        × IsList s'.heap s'.ends (xs ++ all_named ready ys)
        × (s'.ends ≡ s.ends)
        × (s'.watched ≡ s.watched)
        × (s'.sent ≡ s.sent ++ deliveries ready (fds_of (xs ++ ys)) ys)
  client_loop-from zero s xs ys is fine enough fits = absurd (omega arith)
  client_loop-from (suc k) s xs [] is fine enough fits =
      let (o, np, hp) = at_middle s.heap s.ends.head none xs [] is.linked in
      (s, walk_ends k s (end s.ends.head xs) o np hp, is, refl, refl, sym (append-nil s.sent))
  client_loop-from (suc k) s xs ((q, d) ∷ ys) is fine enough fits =
      let d' = named ready d (ready d.client_fd) in
      let xs1 = xs ++ (q, d') ∷ [] in
      let (o, np, hp) = at_middle s.heap s.ends.head none xs ((q, d) ∷ ys) is.linked in
      let (nq, hq) = middle_node s.heap s.ends.head q none d xs ys is.linked in
      let (s1, run1, is1, ends1, watched1, sent1) =
        serve-Turn fuel s xs q d ys is fits ready (ready d.client_fd) refl fine.1 fine.0 in
      let (s', run, is', ends', watched', sent') =
        client_loop-from k s1 xs1 ys (rw (moved xs q d' ys) is1) fine.2 (omega arith)
          (same_length xs q d d' ys fits) in
      (
        s',
        walk_step k s s1 _ q (first ys) o d np hp nq hq run1
            ∙ ap (λ p. client_loop k fuel ready p s1)
                (sym (end-append s1.ends.head xs ((q, d') ∷ [])))
            ∙ run,
        rw (moved xs q d' (all_named ready ys)) at is',
        ends' ∙ ends1,
        watched' ∙ watched1,
        sent'
            ∙ sent_on s.sent s1.sent _ _ (deliveries ready (fds_of (xs ++ (q, d) ∷ ys)) ys) sent1 (
                ap (λ fds. deliveries ready fds ys)
                  (ap fds_of (moved xs q d' ys)
                    ∙ fds_of-renamed q d d' xs ys (named-fd ready d (ready d.client_fd)))),
      )

  -- A walk in which every client that is ready has an open connection and a text that ends in the array,
  -- where the first text of a client has room in its name, with more fuel than there are clients: it ends;
  -- each ready client without a name gets its text for a name, and every text of a client with a name goes,
  -- behind that name, to each other client once, in the order of the list; nothing else is sent, and the
  -- list keeps its nodes.
  pub client_loop-deliveries :
      (s : Chat) (xs : Cells Client)
      → IsList s.heap s.ends xs
      → AllQuiet ready xs
      → length xs < fuel
      → (s' : Chat) × (client_loop fuel fuel ready s.ends.head s ≡ ok s')
        × IsList s'.heap s'.ends (all_named ready xs)
        × (s'.ends ≡ s.ends)
        × (s'.watched ≡ s.watched)
        × (s'.sent ≡ s.sent ++ deliveries ready (fds_of xs) xs)
  client_loop-deliveries s xs is fine enough = client_loop-from fuel s [] xs is fine enough enough
