-- ===== src/Keyboard/Tests.antt =====
-- Runs of src/keyboard.rs.
use ziran_os.Prelude.{◌≡◌, refl, true, none, some, List, [], ◌∷◌}
use ziran_os.Keyboard.{handle_interrupt, empty, push, pop}
use ziran_os.Keyboard.Atomic.{
  Turn, produces, consumes, turns, turn, at_rest, replay, push_step, pop_step, quiet, published,
  taken, nothing,
}
use ziran_os.Keyboard.Ring.{contents}
use ziran_os.Keyboard.Interleaved.{turns-empty-replay}
use ziran_os.Keyboard.Ring.{Use, typed, read, ring_reads}

shifted_a : (handle_interrupt 0x1e true).1 ≡ some b'A'
unfolding handle_interrupt
shifted_a = refl

abbrev uses : List Use
uses = read ∷ typed 1 ∷ typed 2 ∷ read ∷ typed 3 ∷ read ∷ read ∷ []

uses_reads : ring_reads empty uses ≡ none ∷ some 1 ∷ some 2 ∷ some 3 ∷ []
unfolding ring_reads empty push pop
uses_reads = refl

-- The consumer looks before the byte is published, and again after it.
abbrev crossed : List Turn
crossed =
    produces 7
    ∷ consumes
    ∷ produces 0
    ∷ consumes
    ∷ produces 0
    ∷ produces 0
    ∷ consumes
    ∷ consumes
    ∷ consumes
    ∷ consumes
    ∷ []

crossed_marks :
    (turns (at_rest empty) crossed).1
    ≡ quiet ∷ quiet ∷ quiet ∷ nothing ∷ quiet ∷ published 7 ∷ quiet ∷ quiet ∷ quiet ∷ taken 7 ∷ []
unfolding turns turn push_step pop_step at_rest empty
crossed_marks = refl

turns-empty-replay_example :
    replay [] (turns (at_rest empty) crossed).1
    ≡ some (contents (turns (at_rest empty) crossed).0.buffer)
turns-empty-replay_example = turns-empty-replay crossed
