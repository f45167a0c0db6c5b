-- ===== src/Queue/Chain.antt =====
-- What a queue stands for: the nodes from the head's link on, each with its address and its task.
use linux_os_coding.Base.{◌≡◌, ◌≢◌, some, Option, List, [], ◌∷◌, ◌++◌, arith, sym}
use linux_os_coding.Queue.Store.{Ptr, null, Task, Node, node, Heap, write}

abbrev pub Cells : Type 0
Cells = List (Ptr × Task)

abbrev pub first : Cells → Ptr
first [] = null
first ((a, t) ∷ xs) = a

abbrev pub last : Ptr × Task → Cells → Ptr × Task
last x [] = x
last x (y ∷ ys) = last y ys

-- No node of the chain is at `a`.
abbrev pub Out : Ptr → Cells → Type 0
Out a [] = Unit
Out a ((b, t) ∷ xs) = (a ≢ b) × Out a xs

-- Distinct nodes, linked in order and ended by NULL.
abbrev pub Chain : Heap → Cells → Type 0
Chain h [] = Unit
Chain h ((a, t) ∷ xs) = (a ≢ null) × (h a ≡ some (node t (first xs))) × Out a xs × Chain h xs

pub Out-append :
    (a : Ptr) (xs : Cells) (p : Ptr) (t : Task) → Out a xs → a ≢ p → Out a (xs ++ (p, t) ∷ [])
Out-append a [] p t o ne = (ne, tt)
Out-append a ((b, s) ∷ xs) p t o ne = (o.0, Out-append a xs p t o.1 ne)

pub Out-last : (a : Ptr) (x : Ptr × Task) (xs : Cells) → Out a (x ∷ xs) → a ≢ (last x xs).0
Out-last a (b, s) [] o = o.0
Out-last a (b, s) (y ∷ ys) o = Out-last a y ys o.1

-- A write elsewhere leaves the chain alone.
pub frame :
    (h : Heap) (p : Ptr) (c : Option Node) (xs : Cells)
    → Chain h xs
    → Out p xs
    → Chain (write h p c) xs
unfolding write
frame h p c [] ch o = tt
frame h p c ((a, t) ∷ xs) ch o = (ch.0, ground (arith, ch.1, o.0), ch.2, frame h p c xs ch.3 o.1)

pub last-holds :
    (h : Heap) (x : Ptr × Task) (xs : Cells)
    → Chain h (x ∷ xs)
    → ((last x xs).0 ≢ null) × (h (last x xs).0 ≡ some (node (last x xs).1 null))
last-holds h (a, t) [] ch = (ch.0, ch.1)
last-holds h (a, t) (y ∷ ys) ch = last-holds h y ys ch.3

pub Chain-append :
    (h : Heap) (x : Ptr × Task) (xs : Cells) (p : Ptr) (t : Task)
    → Chain h (x ∷ xs)
    → p ≢ null
    → h p ≡ some (node t null)
    → Out p (x ∷ xs)
    → Chain (write h (last x xs).0 (some (node (last x xs).1 p))) ((x ∷ xs) ++ (p, t) ∷ [])
unfolding write
Chain-append h (a, s) [] p t ch ne e o =
    (ch.0, ground arith, ((λ q. o.0 (sym q)), tt), (ne, ground (arith, o.0), tt, tt))
Chain-append h (a, s) ((b, u) ∷ ys) p t ch ne e o = (
  ch.0,
  ground (arith, ch.1, Out-last a (b, u) ys ch.2),
  Out-append a ((b, u) ∷ ys) p t ch.2 (λ q. o.0 (sym q)),
  Chain-append h (b, u) ys p t ch.3 ne e o.1,
)
