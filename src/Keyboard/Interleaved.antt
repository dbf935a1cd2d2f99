-- ===== src/Keyboard/Interleaved.antt =====
-- Whole runs of the interleaved `push` and `pop` of src/keyboard.rs.
use ziran_os.Prelude.{
  ℕ, ◌+◌, ◌%◌, ◌≡◌, refl, ◌∙◌, some, List, [], ◌∷◌, ◌==◌, if◌then◌else◌, replicate,
  length-replicate, arith,
}
use ziran_os.Keyboard.{ring_cap, Buffer, empty, push, pop}
use ziran_os.Keyboard.Ring.{contents}
use ziran_os.Keyboard.Atomic.{
  Shared, Mark, published, dropped, taken, nothing, quiet, push_step, pop_step, Turn, produces,
  consumes, turn, turns, at_rest, replay,
}
use ziran_os.Keyboard.Linear.{Steady, Marks, push_step-Stepped, pop_step-Stepped}

replay-step :
    (m : Mark) (bs bs' : List ℕ) (ms : List Mark)
    → Marks m bs bs'
    → replay bs (m ∷ ms) ≡ replay bs' ms
unfolding replay
replay-step quiet bs bs' ms e = rw e refl
replay-step (published b) bs bs' ms (few, e) = rw e (ground (arith, few))
replay-step (dropped b) bs bs' ms (full, e) = rw e (ground (arith, full))
replay-step (taken b) bs bs' ms e = rw e (ground arith)
replay-step nothing bs bs' ms (e, e') = rw (e, e') refl

turn-Steady :
    (s : Shared) (t : Turn)
    → Steady s
    → Steady (turn s t).0 × Marks (turn s t).1 (contents s.buffer) (contents (turn s t).0.buffer)
unfolding turn
turn-Steady s (produces byte) k =
    let (v, p, c, m) =
      push_step-Stepped byte s.buffer s.producer s.consumer k.valid k.producer_lem k.consumer_lem in
    (record { valid = v; producer_lem = p; consumer_lem = c }, m)
turn-Steady s consumes k =
    let (v, p, c, m) =
      pop_step-Stepped s.buffer s.producer s.consumer k.valid k.producer_lem k.consumer_lem in
    (record { valid = v; producer_lem = p; consumer_lem = c }, m)

turns-replay :
    (s : Shared) (ts : List Turn)
    → Steady s
    → replay (contents s.buffer) (turns s ts).1 ≡ some (contents (turns s ts).0.buffer)
unfolding turns replay
turns-replay s [] k = refl
turns-replay s (t ∷ ts) k =
    let (k', m) = turn-Steady s t k in
    replay-step (turn s t).1 (contents s.buffer) (contents (turn s t).0.buffer)
      (turns (turn s t).0 ts).1 m
    ∙ turns-replay (turn s t).0 ts k'

-- Whatever order the loads and stores of one producer and one consumer come in, from the empty ring
-- on: a queue of at most 255 bytes follows the marks. A byte is published at the end of the queue
-- and only when fewer than 255 wait, dropped only when just 255 wait, taken only if it is the
-- oldest, and `pop` finds none only when none waits; at the end the ring holds what the queue holds.
pub turns-empty-replay :
    (ts : List Turn)
    → replay [] (turns (at_rest empty) ts).1 ≡ some (contents (turns (at_rest empty) ts).0.buffer)
unfolding at_rest empty
turns-empty-replay ts = turns-replay (at_rest empty) ts (record {
  valid = record {
    room = let nought : ℕ = 0 in length-replicate ring_cap nought;
    head_in = omega arith;
    tail_in = omega arith;
  };
  producer_lem = tt;
  consumer_lem = tt;
})

-- The accesses of a `push` and a `pop` that nothing interrupts.
abbrev accesses : Buffer → ℕ
accesses q = if (q.tail + 1) % ring_cap == q.head then 2 else 4

abbrev reads : Buffer → ℕ
reads q = if q.head == q.tail then 2 else 4

-- Where nothing comes between them, the accesses of `push` make `push`, and those of `pop` make
-- `pop`: four each, and two where the ring is full or empty.
pub turns-push-pop :
    (b : ℕ) (q : Buffer)
    → ((turns (at_rest q) (replicate (accesses q) (produces b))).0 ≡ at_rest (push b q))
      × ((turns (at_rest q) (replicate (reads q) consumes)).0 ≡ at_rest (pop q).0)
unfolding turns turn push_step pop_step at_rest push pop
turns-push-pop b q = (ground arith, ground arith)
