-- ===== src/Keyboard/Ring.antt =====
-- The input ring of src/keyboard.rs against a bounded queue.
use ziran_os.Prelude.{
  ℕ, zero, suc, ◌+◌, ◌-◌, ◌%◌, ◌<◌, ◌≤◌, ◌≡◌, ◌⊎◌, refl, ap, ap₂, ◌∙◌, Bool, true, false, Option,
  none, some, List, [], ◌∷◌, ◌++◌, ◌==◌, if◌then◌else◌, ltb, set, get_or, length, length-set,
  length-replicate, get_or-set_self, get_or-set_ne, Bool-cases, inl, inr, arith,
}
use ziran_os.Keyboard.{ring_cap, Buffer, empty, push, pop}

-- The next `n` bytes from the slot `i` on.
abbrev pub items : List ℕ → ℕ → ℕ → List ℕ
items ring i zero = []
items ring i (suc n) = get_or ring i 0 ∷ items ring ((i + 1) % ring_cap) n

abbrev pub size : Buffer → ℕ
size q = (q.tail + ring_cap - q.head) % ring_cap

-- The bytes that wait, oldest first.
abbrev pub contents : Buffer → List ℕ
contents q = items q.ring q.head (size q)

pub record Valid (q : Buffer) : Type 0 where
  pub room : length q.ring ≡ ring_cap
  pub head_in : q.head < ring_cap
  pub tail_in : q.tail < ring_cap

-- What comes in and goes out: keystrokes and reads.
pub data Use : Type 0 where
  typed : ℕ → Use
  read : Use

-- What the reads give, over the ring and over a queue of at most 255 bytes that drops what is too
-- much.
unfoldable pub ring_reads : Buffer → List Use → List (Option ℕ)
ring_reads q [] = []
ring_reads q (typed b ∷ us) = ring_reads (push b q) us
ring_reads q (read ∷ us) = (pop q).1 ∷ ring_reads (pop q).0 us

unfoldable pub queue_reads : List ℕ → List Use → List (Option ℕ)
queue_reads bs [] = []
queue_reads bs (typed b ∷ us) = queue_reads (if ltb (length bs) 255 then bs ++ b ∷ [] else bs) us
queue_reads [] (read ∷ us) = none ∷ queue_reads [] us
queue_reads (b ∷ bs) (read ∷ us) = some b ∷ queue_reads bs us

pub length-items : (ring : List ℕ) (i n : ℕ) → length (items ring i n) ≡ n
length-items ring i zero = refl
length-items ring i (suc n) = ap suc (length-items ring ((i + 1) % ring_cap) n)

pub items-set :
    (ring : List ℕ) (i t b n : ℕ)
    → i < ring_cap
    → t < ring_cap
    → n ≤ (t + ring_cap - i) % ring_cap
    → items (set ring t b) i n ≡ items ring i n
items-set ring i t b zero hi ht h = refl
items-set ring i t b (suc n) hi ht h =
    ap₂ ◌∷◌ (get_or-set_ne ring b 0 (λ (e : t ≡ i). omega arith))
      (items-set ring ((i + 1) % ring_cap) t b n (omega arith) ht (omega arith))

pub items-snoc :
    (ring : List ℕ) (i n : ℕ)
    → i < ring_cap
    → items ring i (suc n) ≡ items ring i n ++ get_or ring ((i + n) % ring_cap) 0 ∷ []
items-snoc ring i zero h = let e : (i + 0) % ring_cap ≡ i = omega arith in rw e refl
items-snoc ring i (suc n) h =
    let e : ((i + 1) % ring_cap + n) % ring_cap ≡ (i + suc n) % ring_cap = omega arith in
    ap (◌∷◌ (get_or ring i 0)) (
      items-snoc ring ((i + 1) % ring_cap) n (omega arith)
      ∙ ap (λ k. items ring ((i + 1) % ring_cap) n ++ get_or ring k 0 ∷ []) e)

abbrev is_full : Buffer → Bool
is_full q = (q.tail + 1) % ring_cap == q.head

push-Valid : (b : ℕ) (q : Buffer) → Valid q → Valid (push b q)
unfolding push
push-Valid b q v = elim (Bool-cases (is_full q)) [
  | inl full ↦ rw full v
  | inr not_full ↦ rw not_full (record {
    room = length-set q.ring q.tail b ∙ v.room;
    head_in = v.head_in;
    tail_in = omega arith;
  })
]

pop-Valid : (q : Buffer) → Valid q → Valid (pop q).0
unfolding pop
pop-Valid q v = elim (Bool-cases (q.head == q.tail)) [
  | inl none_left ↦ rw none_left v
  | inr some_left ↦
      rw some_left (record { room = v.room; head_in = omega arith; tail_in = v.tail_in })
]

push-contents :
    (b : ℕ) (q : Buffer)
    → Valid q
    → contents (push b q)
      ≡ (if ltb (length (contents q)) 255 then contents q ++ b ∷ [] else contents q)
unfolding push
push-contents b q v =
    let count = length-items q.ring q.head (size q) in
    elim (Bool-cases (is_full q)) [
      | inl full ↦ let many : ltb (size q) 255 ≡ false = ground arith in rw (full, count, many) refl
      | inr not_full ↦
          let few : ltb (size q) 255 ≡ true = ground arith in
          let more : ((q.tail + 1) % ring_cap + ring_cap - q.head) % ring_cap ≡ suc (size q) =
            ground arith in
          let slot : (q.head + size q) % ring_cap ≡ q.tail = omega arith in
          rw (not_full, count, few, more)
            (items-snoc (set q.ring q.tail b) q.head (size q) v.head_in
              ∙ ap₂ (λ bs c. bs ++ c ∷ [])
                  (items-set q.ring q.head q.tail b (size q) v.head_in v.tail_in (omega arith))
                  (ap (λ k. get_or (set q.ring q.tail b) k 0) slot
                    ∙ get_or-set_self q.ring q.tail b 0 (omega arith)))
    ]

pop-contents :
    (q : Buffer)
    → Valid q
    → ((contents q ≡ []) × ((pop q).1 ≡ none) × (contents (pop q).0 ≡ []))
      ⊎ ((b : ℕ) × ((pop q).1 ≡ some b) × (contents q ≡ b ∷ contents (pop q).0))
unfolding pop
pop-contents q v = elim (Bool-cases (q.head == q.tail)) [
  | inl none_left ↦
      let nothing : size q ≡ 0 = ground arith in
      rw none_left (inl (rw nothing refl, refl, rw nothing refl))
  | inr some_left ↦
      let less : size q ≡ suc ((q.tail + ring_cap - (q.head + 1) % ring_cap) % ring_cap) =
        ground arith in
      rw some_left (inr (get_or q.ring q.head 0, refl, ap (items q.ring q.head) less))
]

reads_from : (us : List Use) (q : Buffer) → Valid q → ring_reads q us ≡ queue_reads (contents q) us
unfolding ring_reads queue_reads
reads_from [] q v = refl
reads_from (typed b ∷ us) q v =
    reads_from us (push b q) (push-Valid b q v) ∙ ap (λ bs. queue_reads bs us) (push-contents b q v)
reads_from (read ∷ us) q v = elim (pop-contents q v) [
  | inl (e, r, e') ↦
      rw (e, r)
        (ap (◌∷◌ none) (reads_from us (pop q).0 (pop-Valid q v) ∙ ap (λ bs. queue_reads bs us) e'))
  | inr (b, r, e) ↦ rw (e, r) (ap (◌∷◌ (some b)) (reads_from us (pop q).0 (pop-Valid q v)))
]

-- From the empty ring on, whatever bytes are typed and whenever the shell reads, the reads give
-- what a queue of at most 255 bytes gives that takes each byte at its end, drops it when 255 are
-- waiting, and hands out the oldest: none is overwritten, repeated or read before it came.
pub ring_reads-queue_reads : (us : List Use) → ring_reads empty us ≡ queue_reads [] us
unfolding empty
ring_reads-queue_reads us = reads_from us empty (record {
  room = let nought : ℕ = 0 in length-replicate ring_cap nought;
  head_in = omega arith;
  tail_in = omega arith;
})
