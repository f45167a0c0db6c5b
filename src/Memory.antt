-- ===== src/Memory.antt =====
-- Memory of nodes of one type: what stands at each address, and what C code does with a pointer.
use linux_os_coding.Base.{
  true, false, ℕ, Run, ok, fault, ◌>>=◌, Option, none, some, ◌==◌, if◌then◌else◌, ◌≡◌, ◌≢◌, arith,
}

abbrev pub Ptr : Type 0
Ptr = ℕ

abbrev pub null : Ptr
null = 0

-- `none`: no node is allocated at the address.
abbrev pub Memory : Type 0 → Type 0
Memory N = Ptr → Option N

module _ {N : Type 0} where
  -- The memory with `cell` at `place`.
  unfoldable pub write : (old : Memory N) (place : Ptr) (cell : Option N) → Memory N
  write old place cell address = if address == place then cell else old address

  -- `*p`, undefined at NULL and at an address that holds no node.
  unfoldable pub load : Memory N → Ptr → Run N
  load h p = elim (p == null) [ true ↦ fault | false ↦ elim (h p) [ some n ↦ ok n | none ↦ fault ] ]

  -- A write to a field of `*p`.
  unfoldable pub update : Memory N → Ptr → (N → N) → Run (Memory N)
  unfolding load
  update h p f = do n ← load h p; ok (write h p (some (f n)))

  unfoldable pub free : Memory N → Ptr → Run (Memory N)
  unfolding load
  free h p = do n ← load h p; ok (write h p none)

  module _ (h : Memory N) (p : Ptr) {n : N} (ne : p ≢ null) (e : h p ≡ some n) where
    pub load-ok : load h p ≡ ok n
    unfolding load
    load-ok = ground arith

    pub update-ok : (f : N → N) → update h p f ≡ ok (write h p (some (f n)))
    unfolding update
    update-ok f = ground arith

    pub free-ok : free h p ≡ ok (write h p none)
    unfolding free
    free-ok = ground arith

  pub load_freed : (h : Memory N) (p : Ptr) → h p ≡ none → load h p ≡ fault
  unfolding load
  load_freed h p e = ground arith
