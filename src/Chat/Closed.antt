-- ===== src/Chat/Closed.antt =====
-- A walk in which a client has closed its connection.
use linux_os_coding.Base.{
  ℕ, zero, suc, ◌<◌, ◌≡◌, ◌≢◌, refl, sym, ◌∙◌, Run, ok, fault, ◌>>=◌, Option, none, some, [], ◌∷◌,
  ◌++◌, length, arith, Bool-cases, inl, inr,
}
use linux_os_coding.Base.Int.{ℤ, eqb_ℤ_iff}
use linux_os_coding.Memory.{Ptr, null, Memory, load-ok, load_freed}
use linux_os_coding.LinkList.{Node, Ends, cell, list_delete_by_key}
use linux_os_coding.LinkList.Shape.{Cells, Linked, IsList}
use linux_os_coding.LinkList.Delete.{first, next_cell, Freed, list_delete_by_key-erase}
use linux_os_coding.Chat.{Client, Chat, Recv, closed, equal, remove, on_receive, serve, client_loop}

-- No two clients have the same descriptor as the one of `d`, but itself.
abbrev pub Other : Client → Cells Client → Type 0
Other d [] = Unit
Other d ((q, c) ∷ xs) = (c.client_fd ≢ d.client_fd) × Other d xs

abbrev pub AllSilent : (ready : ℤ → Option Recv) → Cells Client → Type 0
AllSilent ready [] = Unit
AllSilent ready ((q, c) ∷ xs) = (ready c.client_fd ≡ none) × AllSilent ready xs

gone_there :
    (q : Ptr) (d : Client) (xs ys : Cells Client) (h : Memory (Node Client))
    → Other d xs
    → Freed equal d (xs ++ (q, d) ∷ ys) h
    → h q ≡ none
unfolding Freed
gone_there q d [] ys h others f = rw ((eqb_ℤ_iff d.client_fd d.client_fd).1 refl, Freed) at f
gone_there q d ((r, c) ∷ xs) ys h (ne, others) f = elim (Bool-cases (equal d c)) [
  | inl e ↦ absurd (ne (sym ((eqb_ℤ_iff d.client_fd c.client_fd).0 e)))
  | inr e ↦ gone_there q d xs ys h others (rw (e, Freed) at f)
]

module _ (fuel : ℕ) (ready : ℤ → Option Recv) where
  loop_step :
      (k : ℕ) (s : Chat) (p q r : Ptr) (o : Option Client) (d : Client) (turn : Run Chat)
      → p ≢ null
      → s.heap p ≡ some (cell o q)
      → q ≢ null
      → s.heap q ≡ some (cell (some d) r)
      → serve fuel ready q d s ≡ turn
      → client_loop (suc k) fuel ready p s ≡ (turn >>= λ s'. client_loop k fuel ready q s')
  unfolding client_loop
  loop_step k s p q r o d turn np hp nq hq e =
      ground (arith, load-ok s.heap p np hp, load-ok s.heap q nq hq, e)

  silent :
      (q : Ptr) (d : Client) (s : Chat) → ready d.client_fd ≡ none → serve fuel ready q d s ≡ ok s
  unfolding serve
  silent q d s e = rw (e, serve) refl

  closes :
      (q : Ptr) (d : Client) (s : Chat) (e : Ends) (h : Memory (Node Client))
      → ready d.client_fd ≡ some closed
      → list_delete_by_key equal fuel s.ends.head s.ends d s.heap ≡ ok (e, h)
      → serve fuel ready q d s
        ≡ ok (record s { ends = e; heap = h; watched = remove d.client_fd s.watched })
  unfolding serve on_receive
  closes q d s e h r run = rw (r, serve, run) refl

  freed_node : (k : ℕ) (q : Ptr) (s : Chat) → s.heap q ≡ none → client_loop k fuel ready q s ≡ fault
  unfolding client_loop
  freed_node zero q s e = refl
  freed_node (suc k) q s e = rw (load_freed s.heap q e, client_loop) refl

  reaches :
      (k : ℕ) (s s' : Chat) (p : Ptr) (o : Option Client) (xs ys : Cells Client) (q : Ptr)
      (d : Client)
      → Linked s.heap p o (xs ++ (q, d) ∷ ys)
      → AllSilent ready xs
      → serve fuel ready q d s ≡ ok s'
      → s'.heap q ≡ none
      → client_loop k fuel ready p s ≡ fault
  reaches zero s s' p o xs ys q d l quiet run gone = unfold client_loop in refl
  reaches (suc k) s s' p o [] ys q d (np, hp, off, more) quiet run gone =
      let (nq, hq) = next_cell s.heap q (some d) ys more in
      loop_step k s p q (first ys) o d (ok s') np hp nq hq run ∙ freed_node k q s' gone
  reaches (suc k) s s' p o ((r, c) ∷ xs) ys q d (np, hp, off, more) quiet run gone =
      let (nr, hr) = next_cell s.heap r (some c) (xs ++ (q, d) ∷ ys) more in
      loop_step k s p r _ o c (ok s) np hp nr hr (silent r c s quiet.0)
      ∙ reaches k s s' r (some c) xs ys q d more quiet.1 run gone

  -- A walk that comes, behind clients that are not ready and have other descriptors, to a client whose
  -- connection is closed, with more fuel than there are clients: `listDeleteByKey` frees the node of
  -- that client, and the walk, which reads that node next, is a fault.
  pub client_loop-closed :
      (s : Chat) (xs ys : Cells Client) (q : Ptr) (d : Client)
      → IsList s.heap s.ends (xs ++ (q, d) ∷ ys)
      → AllSilent ready xs
      → Other d xs
      → ready d.client_fd ≡ some closed
      → length (xs ++ (q, d) ∷ ys) < fuel
      → (e : Ends) × (h : Memory (Node Client)) × (list_delete_by_key equal fuel s.ends.head s.ends
            d s.heap
          ≡ ok (e, h))
        × (h q ≡ none)
        × (client_loop fuel fuel ready s.ends.head s ≡ fault)
  client_loop-closed s xs ys q d is quiet others r enough =
      let (e, h, run, is', freed) =
        list_delete_by_key-erase equal d fuel s.heap s.ends (xs ++ (q, d) ∷ ys) is enough in
      let gone = gone_there q d xs ys h others freed in
      (
        e,
        h,
        run,
        gone,
        reaches fuel s _ s.ends.head none xs ys q d is.linked quiet (closes q d s e h r run) gone,
      )
