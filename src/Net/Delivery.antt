-- ===== src/Net/Delivery.antt =====
-- What `poll` of src/net.rs delivers.
use mathlib.Core.List.{append_assoc, append-nil}
use ziran_os.Prelude.{
  ==_iff, ℕ, ◌+◌, ◌≡◌, refl, ap, sym, ◌∙◌, inl, inr, Bool, true, false, not, Option, none, some,
  List, [], ◌∷◌, ◌++◌, ◌==◌, if◌then◌else◌, keep, count_if, Bool-cases, Option-cases, arith,
}
use ziran_os.Net.{Frame, Net, Sockets, queue_of, set_queue, route, poll}

abbrev pub is_bound : Sockets → ℕ → Bool
is_bound sockets addr = elim (queue_of addr sockets) [ none ↦ false | some rx ↦ true ]

-- A queue with more frames behind it, where there is one.
abbrev pub extended : Option (List Frame) → List Frame → Option (List Frame)
extended none more = none
extended (some rx) more = some (rx ++ more)

abbrev pub addressed : ℕ → List Frame → List Frame
addressed addr = keep (λ f. f.dst == addr)

queue_of-set_queue :
    (set_addr asked : ℕ) (rx : List Frame) (sockets : Sockets)
    → queue_of asked (set_queue set_addr rx sockets) ≡ (
        if set_addr == asked
        then (if is_bound sockets set_addr then some rx else none)
        else queue_of asked sockets)
unfolding queue_of set_queue
queue_of-set_queue set_addr asked rx [] = ground arith
queue_of-set_queue set_addr asked rx ((here, old) ∷ rest) =
    ground (arith, queue_of-set_queue set_addr asked rx rest)

is_bound-set_queue :
    (addr asked : ℕ) (rx : List Frame) (sockets : Sockets)
    → is_bound (set_queue addr rx sockets) asked ≡ is_bound sockets asked
is_bound-set_queue addr asked rx sockets =
    ground (arith, queue_of-set_queue addr asked rx sockets, same_address)
  where
    same_address : (addr == asked) ≡ true → is_bound sockets addr ≡ is_bound sockets asked
    same_address e = ap (is_bound sockets) ((==_iff addr asked).0 e)

count_if-cong :
    (p q : Frame → Bool)
    → ((f : Frame) → p f ≡ q f)
    → (fs : List Frame) → count_if p fs ≡ count_if q fs
count_if-cong p q e [] = refl
count_if-cong p q e (f ∷ fs) = ground (arith, e f, count_if-cong p q e fs)

-- What a network is after the frames of the transmit queue are routed.
pub record Routed (tx : List Frame) (sockets : Sockets) (dropped delivered : ℕ) (r : ℕ × Net)
    : Type 0 where
  pub sent : r.1.tx ≡ []
  pub queues :
      (addr : ℕ) → queue_of addr r.1.sockets ≡ extended (queue_of addr sockets) (addressed addr tx)
  pub arrived : r.0 ≡ delivered + count_if (λ f. is_bound sockets f.dst) tx
  pub lost : r.1.dropped ≡ dropped + count_if (λ f. not (is_bound sockets f.dst)) tx

extended-nil : (q : Option (List Frame)) → q ≡ extended q []
extended-nil none = refl
extended-nil (some rx) = ap some (sym (append-nil rx))

module _ (frame : Frame) (tx : List Frame) (sockets : Sockets) (addr : ℕ) where
  queues-delivered :
      (rx : List Frame)
      → queue_of frame.dst sockets ≡ some rx
      → extended
          (queue_of addr (set_queue frame.dst (rx ++ frame ∷ []) sockets))
          (addressed addr tx)
        ≡ extended (queue_of addr sockets) (addressed addr (frame ∷ tx))
  queues-delivered rx e = elim (Bool-cases (frame.dst == addr)) [
    | inl k ↦
        let bound_here : is_bound sockets frame.dst ≡ true = ground (arith, e) in
        let now : queue_of addr (set_queue frame.dst (rx ++ frame ∷ []) sockets)
            ≡ some (rx ++ frame ∷ []) =
          ground
            (arith, k, bound_here, queue_of-set_queue frame.dst addr (rx ++ frame ∷ []) sockets) in
        let before : queue_of addr sockets ≡ some rx =
          ap (λ a. queue_of a sockets) (sym ((==_iff frame.dst addr).0 k)) ∙ e in
        rw (now, before, k) (ap some (append_assoc rx (frame ∷ []) (addressed addr tx)))
    | inr k ↦ ground (arith, k, queue_of-set_queue frame.dst addr (rx ++ frame ∷ []) sockets)
  ]

  queues-dropped :
      queue_of frame.dst sockets ≡ none
      → extended (queue_of addr sockets) (addressed addr tx)
        ≡ extended (queue_of addr sockets) (addressed addr (frame ∷ tx))
  queues-dropped e = elim (Bool-cases (frame.dst == addr)) [
    | inl k ↦
        let unbound = ap (λ a. queue_of a sockets) (sym ((==_iff frame.dst addr).0 k)) ∙ e in
        rw unbound refl
    | inr k ↦ rw k refl
  ]

route-Routed :
    (tx : List Frame) (sockets : Sockets) (dropped delivered : ℕ)
    → Routed tx sockets dropped delivered (route tx sockets dropped delivered)
unfolding route
route-Routed [] sockets dropped delivered = record {
  sent = refl;
  queues = λ addr. extended-nil (queue_of addr sockets);
  arrived = omega arith;
  lost = omega arith;
}
route-Routed (frame ∷ tx) sockets dropped delivered =
    elim (Option-cases (queue_of frame.dst sockets)) [
      | inl e ↦
          let rest = route-Routed tx sockets (dropped + 1) delivered in
          rw (e, route)
            (record {
              sent = rest.sent;
              queues = λ addr. rest.queues addr ∙ queues-dropped frame tx sockets addr e;
              arrived = ground (arith, e, rest.arrived);
              lost = ground (arith, e, rest.lost);
            })
      | inr (rx, e) ↦
          let sockets' = set_queue frame.dst (rx ++ frame ∷ []) sockets in
          let rest = route-Routed tx sockets' dropped (delivered + 1) in
          let same = λ (f : Frame). is_bound-set_queue frame.dst f.dst (rx ++ frame ∷ []) sockets in
          rw (e, route)
            (record {
              sent = rest.sent;
              queues = λ addr. rest.queues addr ∙ queues-delivered frame tx sockets addr rx e;
              arrived = ground (
                arith,
                e,
                rest.arrived,
                count_if-cong (λ f. is_bound sockets' f.dst) (λ f. is_bound sockets f.dst) same tx,
              );
              lost = ground (
                arith,
                e,
                rest.lost,
                count_if-cong (λ f. not (is_bound sockets' f.dst))
                    (λ f. not (is_bound sockets f.dst)) (λ f. ap not (same f)) tx,
              );
            })
    ]

-- One `poll` sends all there is to send. Each bound socket then has, behind what it had, the frames
-- of the transmit queue with its address as their destination, in the order in which they were sent,
-- and no socket is bound or unbound. The number that `poll` returns counts the frames whose
-- destination was bound, and the drop counter rises by the number of the others.
pub poll-Routed : (n : Net) → Routed n.tx n.sockets n.dropped 0 (poll n)
unfolding poll
poll-Routed n = route-Routed n.tx n.sockets n.dropped 0
