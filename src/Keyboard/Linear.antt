-- ===== src/Keyboard/Linear.antt =====
-- Every interleaving of the loads and stores of `push` and `pop` in src/keyboard.rs is a run of a
-- bounded queue.
use ziran_os.Prelude.{
  ℕ, suc, ◌+◌, ◌-◌, ◌%◌, ◌<◌, ◌≡◌, ◌≢◌, refl, sym, ap, ◌∙◌, List, [], ◌∷◌, ◌++◌, ◌==◌, set, get_or,
  length, length-set, get_or-set_self, get_or-set_ne, Bool-cases, inl, inr, arith,
}
use ziran_os.Keyboard.{ring_cap, Buffer}
use ziran_os.Keyboard.Ring.{items, size, contents, Valid, length-items, items-set, items-snoc}
use ziran_os.Keyboard.Atomic.{
  Producer, resting, tail_loaded, has_room, byte_stored, Consumer, waiting, head_loaded, has_byte,
  byte_loaded, Shared, Mark, published, dropped, taken, nothing, quiet, push_step, pop_step,
}

-- There is room for another byte, and a byte is there.
abbrev pub Room : Buffer → Type 0
Room q = (q.tail + 1) % ring_cap ≢ q.head

abbrev pub Some : Buffer → Type 0
Some q = q.head ≢ q.tail

-- What the producer knows at each step, and the consumer.
abbrev pub Produces : Buffer → Producer → Type 0
Produces q resting = Unit {0}
Produces q (tail_loaded b t) = t ≡ q.tail
Produces q (has_room b t) = (t ≡ q.tail) × Room q
Produces q (byte_stored b t) = (t ≡ q.tail) × Room q × (get_or q.ring q.tail 0 ≡ b)

abbrev pub Consumes : Buffer → Consumer → Type 0
Consumes q waiting = Unit {0}
Consumes q (head_loaded h) = h ≡ q.head
Consumes q (has_byte h) = (h ≡ q.head) × Some q
Consumes q (byte_loaded h b) = (h ≡ q.head) × Some q × (get_or q.ring q.head 0 ≡ b)

pub record Steady (s : Shared) : Type 0 where
  pub valid : Valid s.buffer
  pub producer_lem : Produces s.buffer s.producer
  pub consumer_lem : Consumes s.buffer s.consumer

-- What a mark says of the bytes that wait before it and after it.
abbrev pub Marks : Mark → List ℕ → List ℕ → Type 0
Marks quiet bs bs' = bs' ≡ bs
Marks (published b) bs bs' = (length bs < 255) × (bs' ≡ bs ++ b ∷ [])
Marks (dropped b) bs bs' = (length bs ≡ 255) × (bs' ≡ bs)
Marks (taken b) bs bs' = bs ≡ b ∷ bs'
Marks nothing bs bs' = (bs ≡ []) × (bs' ≡ [])

module _ (q : Buffer) (v : Valid q) where
  -- The byte in the free slot at TAIL changes nothing that waits.
  store_byte : (b : ℕ) → items (set q.ring q.tail b) q.head (size q) ≡ contents q
  store_byte b = items-set q.ring q.head q.tail b (size q) v.head_in v.tail_in (omega arith)

  publish :
      (b : ℕ)
      → Room q
      → get_or q.ring q.tail 0 ≡ b
      → contents (record q { tail = (q.tail + 1) % ring_cap }) ≡ contents q ++ b ∷ []
  publish b room e =
      let more : ((q.tail + 1) % ring_cap + ring_cap - q.head) % ring_cap ≡ suc (size q) =
        omega (arith, room, v.head_in, v.tail_in) in
      let slot : (q.head + size q) % ring_cap ≡ q.tail = omega (arith, v.head_in, v.tail_in) in
      ap (items q.ring q.head) more
      ∙ items-snoc q.ring q.head (size q) v.head_in
      ∙ ap (λ c. contents q ++ c ∷ []) (ap (λ k. get_or q.ring k 0) slot ∙ e)

  take_byte :
      (b : ℕ)
      → Some q
      → get_or q.ring q.head 0 ≡ b
      → contents q ≡ b ∷ contents (record q { head = (q.head + 1) % ring_cap })
  take_byte b some_left e =
      let less : size q ≡ suc ((q.tail + ring_cap - (q.head + 1) % ring_cap) % ring_cap) =
        omega (arith, some_left, v.head_in, v.tail_in) in
      ap (items q.ring q.head) less
      ∙ ap (λ c. c ∷ contents (record q { head = (q.head + 1) % ring_cap })) e

-- The producer's stores leave the consumer's knowledge true, and the consumer's the producer's.
Consumes-store :
    (q : Buffer) (c : Consumer) (b : ℕ)
    → Consumes q c
    → Consumes (record q { ring = set q.ring q.tail b }) c
Consumes-store q waiting b k = tt
Consumes-store q (head_loaded h) b k = k
Consumes-store q (has_byte h) b k = k
Consumes-store q (byte_loaded h x) b (e, ne, k) =
    (e, ne, get_or-set_ne q.ring b 0 (λ (z : q.tail ≡ q.head). ne (sym z)) ∙ k)

Consumes-publish :
    (q : Buffer) (c : Consumer)
    → Room q
    → Consumes q c
    → Consumes (record q { tail = (q.tail + 1) % ring_cap }) c
Consumes-publish q waiting room k = tt
Consumes-publish q (head_loaded h) room k = k
Consumes-publish q (has_byte h) room (e, ne) = (e, λ z. room (sym z))
Consumes-publish q (byte_loaded h x) room (e, ne, k) = (e, (λ z. room (sym z)), k)

Produces-take :
    (q : Buffer) (p : Producer)
    → Valid q
    → Some q
    → Produces q p
    → Produces (record q { head = (q.head + 1) % ring_cap }) p
Produces-take q resting v ne k = tt
Produces-take q (tail_loaded b t) v ne k = k
Produces-take q (has_room b t) v ne (e, room) =
    (e, λ z. ne (omega (arith, z, v.head_in, v.tail_in)))
Produces-take q (byte_stored b t) v ne (e, room, k) =
    (e, (λ z. ne (omega (arith, z, v.head_in, v.tail_in))), k)

-- A step keeps what both know, and its mark tells what it does to the bytes that wait.
abbrev pub Stepped : Buffer → Buffer → Producer → Consumer → Mark → Type 0
Stepped q q' p c m = Valid q' × Produces q' p × Consumes q' c × Marks m (contents q) (contents q')

pub push_step-Stepped :
    (byte : ℕ) (q : Buffer) (p : Producer) (c : Consumer)
    → Valid q
    → Produces q p
    → Consumes q c
    → let (q', p', m) = push_step byte q p in Stepped q q' p' c m
unfolding push_step
push_step-Stepped byte q resting c v k l = (v, refl, l, refl)
push_step-Stepped byte q (tail_loaded b t) c v k l =
    let count = length-items q.ring q.head (size q) in
    elim (Bool-cases ((q.tail + 1) % ring_cap == q.head)) [
      | inl full ↦
          rw k (rw full (v, tt, l, (ground (arith, count, full, v.head_in, v.tail_in), refl)))
      | inr few ↦ rw k (rw few (v, (refl, ground (arith, few)), l, refl))
    ]
push_step-Stepped byte q (has_room b t) c v (e, room) l = rw e (
  record { room = length-set q.ring q.tail b ∙ v.room; head_in = v.head_in; tail_in = v.tail_in },
  (refl, room, get_or-set_self q.ring q.tail b 0 (omega (arith, v.room, v.tail_in))),
  Consumes-store q c b l,
  store_byte q v b,
)
push_step-Stepped byte q (byte_stored b t) c v (e, room, k) l = rw e (
  record { room = v.room; head_in = v.head_in; tail_in = omega arith },
  tt,
  Consumes-publish q c room l,
  (
    omega (arith, length-items q.ring q.head (size q), room, v.head_in, v.tail_in),
    publish q v b room k,
  ),
)

pub pop_step-Stepped :
    (q : Buffer) (p : Producer) (c : Consumer)
    → Valid q
    → Produces q p
    → Consumes q c
    → let (q', c', m) = pop_step q c in Stepped q q' p c' m
unfolding pop_step
pop_step-Stepped q p waiting v k l = (v, k, refl, refl)
pop_step-Stepped q p (head_loaded h) v k l = elim (Bool-cases (q.head == q.tail)) [
  | inl none_left ↦
      let nothing_left : size q ≡ 0 = ground (arith, none_left, v.head_in, v.tail_in) in
      rw l (
        rw none_left (
          v,
          k,
          tt,
          (ap (items q.ring q.head) nothing_left, ap (items q.ring q.head) nothing_left),
        ))
  | inr some_left ↦ rw l (rw some_left (v, k, (refl, ground (arith, some_left)), refl))
]
pop_step-Stepped q p (has_byte h) v k (e, ne) = rw e (v, k, (refl, ne, refl), refl)
pop_step-Stepped q p (byte_loaded h b) v k (e, ne, held) = rw e (
  record { room = v.room; head_in = omega arith; tail_in = v.tail_in },
  Produces-take q p v ne k,
  tt,
  take_byte q v b ne held,
)
