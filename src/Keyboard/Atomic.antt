-- ===== src/Keyboard/Atomic.antt =====
-- `push` and `pop` of src/keyboard.rs as their single loads and stores, which an interrupt or
-- another core may interleave in any order. Each step is one access to HEAD, TAIL or RING, in the
-- order of the source, and takes effect at once.
use ziran_os.Prelude.{
  ℕ, ◌+◌, ◌%◌, Option, none, some, List, [], ◌∷◌, ◌++◌, ◌==◌, ltb, if◌then◌else◌, set, get_or,
  length,
}
use ziran_os.Keyboard.{ring_cap, Buffer}

-- Where the producer stands in `push`: before it, past the load of TAIL, past the test that there is
-- room, past the store of the byte.
pub data Producer : Type 0 where
  resting : Producer
  tail_loaded : ℕ → ℕ → Producer
  has_room : ℕ → ℕ → Producer
  byte_stored : ℕ → ℕ → Producer

-- Where the consumer stands in `pop`: before it, past the load of HEAD, past the test that a byte
-- is there, past the load of the byte.
pub data Consumer : Type 0 where
  waiting : Consumer
  head_loaded : ℕ → Consumer
  has_byte : ℕ → Consumer
  byte_loaded : ℕ → ℕ → Consumer

pub record Shared : Type 0 where
  pub buffer : Buffer
  pub producer : Producer
  pub consumer : Consumer

-- What a step decides: a byte is published or dropped, a byte is taken or there is none.
pub data Mark : Type 0 where
  published dropped taken : ℕ → Mark
  nothing quiet : Mark

-- One access of `push`; a producer at rest begins with this byte.
unfoldable pub push_step : ℕ → Buffer → Producer → Buffer × Producer × Mark
push_step byte q resting = (q, tail_loaded byte q.tail, quiet)
push_step _ q (tail_loaded byte tail) =
    let next = (tail + 1) % ring_cap in
    if next == q.head then (q, resting, dropped byte) else (q, has_room byte tail, quiet)
push_step _ q (has_room byte tail) =
    (record q { ring = set q.ring tail byte }, byte_stored byte tail, quiet)
push_step _ q (byte_stored byte tail) =
    (record q { tail = (tail + 1) % ring_cap }, resting, published byte)

-- One access of `pop`.
unfoldable pub pop_step : Buffer → Consumer → Buffer × Consumer × Mark
pop_step q waiting = (q, head_loaded q.head, quiet)
pop_step q (head_loaded head) =
    if head == q.tail then (q, waiting, nothing) else (q, has_byte head, quiet)
pop_step q (has_byte head) = (q, byte_loaded head (get_or q.ring head 0), quiet)
pop_step q (byte_loaded head byte) =
    (record q { head = (head + 1) % ring_cap }, waiting, taken byte)

-- Whose turn it is.
pub data Turn : Type 0 where
  produces : ℕ → Turn
  consumes : Turn

unfoldable pub turn : Shared → Turn → Shared × Mark
turn s (produces byte) =
    let (q, p, m) = push_step byte s.buffer s.producer in (record s { buffer = q; producer = p }, m)
turn s consumes =
    let (q, c, m) = pop_step s.buffer s.consumer in (record s { buffer = q; consumer = c }, m)

unfoldable pub turns : Shared → List Turn → Shared × List Mark
turns s [] = (s, [])
turns s (t ∷ ts) = let (s1, m) = turn s t in let (s2, ms) = turns s1 ts in (s2, m ∷ ms)

unfoldable pub at_rest : Buffer → Shared
at_rest q = record { buffer = q; producer = resting; consumer = waiting }

-- A queue of at most 255 bytes that follows the marks; `none` where it could not have made one.
unfoldable pub replay : List ℕ → List Mark → Option (List ℕ)
replay bs [] = some bs
replay bs (quiet ∷ ms) = replay bs ms
replay bs (published b ∷ ms) =
    let rest = replay (bs ++ b ∷ []) ms in if ltb (length bs) 255 then rest else none
replay bs (dropped b ∷ ms) = let rest = replay bs ms in if length bs == 255 then rest else none
replay [] (taken b ∷ ms) = none
replay (c ∷ bs) (taken b ∷ ms) = let rest = replay bs ms in if c == b then rest else none
replay [] (nothing ∷ ms) = replay [] ms
replay (c ∷ bs) (nothing ∷ ms) = none
