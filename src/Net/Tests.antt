-- ===== src/Net/Tests.antt =====
-- The loopback network at concrete inputs.
use ziran_os.Prelude.{◌≡◌, refl, some, [], ◌∷◌}
use ziran_os.Net.{Frame, Net, queue_of, set_queue, poll, route, recv}
use ziran_os.Net.Delivery.{Routed, poll-Routed}

abbrev hello : Frame
hello = record { src = 1; dst = 2; payload = 104 ∷ 105 ∷ [] }

-- A frame for a bound address and one for no one.
abbrev waiting : Net
waiting = record {
  tx = hello ∷ record { src = 1; dst = 9; payload = [] } ∷ [];
  sockets = (1, []) ∷ (2, []) ∷ [];
  dropped = 0;
}

delivered : (poll waiting).0 ≡ 1
unfolding poll route queue_of set_queue
delivered = refl

received : (recv (poll waiting).1 2).0 ≡ some hello
unfolding poll route queue_of set_queue recv
received = refl

poll-Routed_example : Routed waiting.tx waiting.sockets 0 0 (poll waiting)
poll-Routed_example = poll-Routed waiting
