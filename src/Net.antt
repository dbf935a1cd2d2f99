-- ===== src/Net.antt =====
-- src/net.rs: the loopback network. The table of sockets is a list; addresses and counts stay far
-- below the ends of their types. NET is explicit state, and is installed.
use ziran_os.Prelude.{
  ℕ, ◌+◌, Option, none, some, List, [], ◌∷◌, ◌++◌, ◌==◌, ltb, if◌then◌else◌, length, true, false,
}
pub mod Delivery
mod Tests

abbrev pub mtu : ℕ
mtu = 1500

pub record Frame : Type 0 where
  pub src : ℕ
  pub dst : ℕ
  pub payload : List ℕ

pub data NetError : Type 0 where
  addr_in_use too_long : NetError

-- The bound addresses, each with its receive queue.
abbrev pub Sockets : Type 0
Sockets = List (ℕ × List Frame)

pub record Net : Type 0 where
  pub tx : List Frame
  pub sockets : Sockets
  pub dropped : ℕ

-- What a call comes to: NET afterwards, or an error that leaves it.
pub data Answer : Type 0 where
  done : Net → Answer
  failed : NetError → Answer

unfoldable pub installed : Net
installed = record { tx = []; sockets = []; dropped = 0 }

-- `sockets.get(&addr)`
unfoldable pub queue_of : ℕ → Sockets → Option (List Frame)
queue_of addr [] = none
queue_of addr ((here, rx) ∷ rest) = elim (here == addr) [
  | true ↦ some rx
  | false ↦ queue_of addr rest
]

-- The socket's queue, replaced where it is bound.
unfoldable pub set_queue : ℕ → List Frame → Sockets → Sockets
set_queue addr rx [] = []
set_queue addr rx ((here, old) ∷ rest) = elim (here == addr) [
  | true ↦ (here, rx) ∷ rest
  | false ↦ (here, old) ∷ set_queue addr rx rest
]

-- `sockets.remove(&addr)`
unfoldable pub remove : ℕ → Sockets → Sockets
remove addr [] = []
remove addr ((here, rx) ∷ rest) = elim (here == addr) [
  | true ↦ rest
  | false ↦ (here, rx) ∷ remove addr rest
]

unfoldable pub bind : Net → ℕ → Answer
bind n addr = elim (queue_of addr n.sockets) [
  | some rx ↦ failed addr_in_use
  | none ↦ done (record n { sockets = (addr, []) ∷ n.sockets })
]

unfoldable pub send : Net → ℕ → ℕ → List ℕ → Answer
send n from to bytes =
    if ltb mtu (length bytes)
    then failed too_long
    else done (record n { tx = n.tx ++ (record { src = from; dst = to; payload = bytes }) ∷ [] })

unfoldable pub recv : Net → ℕ → Option Frame × Net
recv n addr = elim (queue_of addr n.sockets) [
  | none ↦ (none, n)
  | some [] ↦ (none, n)
  | some (frame ∷ rx) ↦ (some frame, record n { sockets = set_queue addr rx n.sockets })
]

unfoldable pub close : Net → ℕ → Net
close n addr = record n { sockets = remove addr n.sockets }

-- The loop of `poll` over the transmit queue, with how many it has delivered.
unfoldable pub route : List Frame → Sockets → ℕ → ℕ → ℕ × Net
route [] sockets dropped delivered =
    (delivered, record { tx = []; sockets = sockets; dropped = dropped })
route (frame ∷ tx) sockets dropped delivered = elim (queue_of frame.dst sockets) [
  | some rx ↦ route tx (set_queue frame.dst (rx ++ frame ∷ []) sockets) dropped (delivered + 1)
  | none ↦ route tx sockets (dropped + 1) delivered
]

unfoldable pub poll : Net → ℕ × Net
poll n = route n.tx n.sockets n.dropped 0
