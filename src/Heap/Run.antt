-- ===== src/Heap/Run.antt =====
-- Runs of the heap of src/heap.rs: any sequence of requests, of blocks given back, and of writes by
-- their users, from init on.
use ziran_os.Prelude.{
  ℕ, zero, suc, Option, none, some, List, [], ◌∷◌, ◌==◌, if◌then◌else◌, get_elem?,
}
use ziran_os.Heap.{
  FreeListHeap, Layout, heap_base, heap_size, null, update, new, init, alloc, dealloc,
}
use ziran_os.Heap.Align.{reserved}
use ziran_os.Heap.Owners.{Block, owners}

-- A block in use: its address and the layout that it was asked for with.
abbrev pub Grant : Type 0
Grant = ℕ × Layout

abbrev pub block_of : Grant → Block
block_of g = (g.0, reserved g.1)

abbrev pub blocks : List Grant → List Block
blocks [] = []
blocks (g ∷ live) = block_of g ∷ blocks live

pub record System : Type 0 where
  pub heap : FreeListHeap
  pub live : List Grant

-- What the rest of the kernel does with the heap. A block is given back by its place among those in
-- use, with its own layout, as GlobalAlloc demands; a user writes only to its blocks.
pub data Request : Type 0 where
  allocate : Layout → Request
  release : ℕ → Request
  store : ℕ → ℕ → Request

abbrev pub remove : ℕ → List Grant → List Grant
remove i [] = []
remove zero (g ∷ live) = live
remove (suc i) (g ∷ live) = g ∷ remove i live

unfoldable pub granting : List Grant → Layout → FreeListHeap × ℕ → System
granting live l (h, p) = record { heap = h; live = if p == null then live else (p, l) ∷ live }

unfoldable pub perform : System → Request → Option System
perform s (allocate l) = elim (alloc s.heap l) [ none ↦ none | some r ↦ some (granting s.live l r) ]
perform s (release i) = elim (get_elem? s.live i) [
  | none ↦ some s
  | some (p, l) ↦ elim (dealloc s.heap p l) [
    | none ↦ none
    | some h ↦ some (record { heap = h; live = remove i s.live })
  ]
]
perform s (store a word) =
    if owners a (blocks s.live) == 0
    then some s
    else some (record s { heap = record s.heap { memory = update s.heap.memory a word } })

unfoldable pub run : System → List Request → Option System
run s [] = some s
run s (r ∷ rs) = elim (perform s r) [ none ↦ none | some s' ↦ run s' rs ]

-- `init` on any memory, with no block in use.
unfoldable pub boot : (ℕ → ℕ) → Option System
boot memory = elim (init (new memory) heap_base heap_size) [
  | none ↦ none
  | some h ↦ some (record { heap = h; live = [] })
]
