-- ===== src/Bridge/Session/Input.antt =====
-- What reaches the guest's stdin.
use ziran_os.Prelude.{
  ℕ, ◌+◌, ◌≤◌, ◌<◌, ◌≡◌, refl, ap, String, not, ◌&&◌, Option, List, [], ◌∷◌, ◌++◌, inl, inr, ltb,
  if◌then◌else◌, length, length-append, drop, ltb→lt, ltb→le, Bool-cases, arith,
}
use mathlib.Core.List.{append_assoc, append-nil}
use ziran_os.Bridge.Config.{Config}
use ziran_os.Bridge.Session.{
  Host, Socket, Session, Effect, log, kill, close, send, send_text, send_ctl, write, Arrival,
  buffer, ctl, is_control, handle_control, deliver, on_message, on_messages,
}

-- The bytes that a list of effects writes to the guest.
abbrev pub written : List Effect → List ℕ
written [] = []
written (write d ∷ es) = d ++ written es
written (log n ∷ es) = written es
written (kill ∷ es) = written es
written (close k r ∷ es) = written es
written (send d ∷ es) = written es
written (send_text t ∷ es) = written es
written (send_ctl v ∷ es) = written es

pub written-append : (xs ys : List Effect) → written (xs ++ ys) ≡ written xs ++ written ys
written-append [] ys = refl
written-append (write d ∷ es) ys = rw (written-append es ys, append_assoc)
written-append (log n ∷ es) ys = written-append es ys
written-append (kill ∷ es) ys = written-append es ys
written-append (close k r ∷ es) ys = written-append es ys
written-append (send d ∷ es) ys = written-append es ys
written-append (send_text t ∷ es) ys = written-append es ys
written-append (send_ctl v ∷ es) ys = written-append es ys

module _ (h : Host) (c : Config) (honey : Option String) where
  -- The control channel writes nothing to the guest and leaves the byte count alone.
  handle_control-quiet :
      (sock : Socket) (s : Session) (json : List ℕ)
      → let (s', es) = handle_control h c honey sock s json in
        (written es ≡ []) × (s'.in_bytes ≡ s.in_bytes)
  unfolding handle_control
  handle_control-quiet sock s json = ground arith

  deliver-written :
      (sock : Socket) (s : Session) (buf : List ℕ)
      → let (s', es) = deliver h c honey sock s buf in
        (s'.in_bytes ≡ s.in_bytes)
        × (written es ≡ (
            if not (ltb c.max_in_bytes s.in_bytes) && (not (is_control buf) && sock.writable)
            then buf
            else []))
  unfolding deliver
  deliver-written sock s buf =
      ground (arith, handle_control-quiet sock s (drop (length ctl) buf), append-nil buf)

  -- What one message writes: its buffer, if the total is within the cap, the buffer is no control
  -- frame and the guest takes input; nothing otherwise. Every byte is counted.
  pub on_message-written :
      (s : Session) (a : Arrival)
      → let buf = buffer h a in
        let total = s.in_bytes + length buf in
        let (s', es) = on_message h c honey s a in
        (s'.in_bytes ≡ total)
        × (written es ≡ (
            if not (ltb c.max_in_bytes total) && (not (is_control buf) && a.socket.writable)
            then buf
            else []))
  unfolding on_message
  on_message-written s a = deliver-written a.socket _ (buffer h a)

  -- The longest run of messages from the start whose bytes, counted from `n`, stay within the cap.
  unfoldable pub within_cap : ℕ → List Arrival → List Arrival
  within_cap n [] = []
  within_cap n (a ∷ rest) =
      let total = n + length (buffer h a) in
      if ltb c.max_in_bytes total then [] else a ∷ within_cap total rest

  -- The console bytes of some messages: the buffers that are no control frames, as far as the guest
  -- takes input.
  unfoldable pub console : List Arrival → List ℕ
  console [] = []
  console (a ∷ rest) =
      (if not (is_control (buffer h a)) && a.socket.writable then buffer h a else [])
      ++ console rest

  -- Once past the cap, nothing is written any more.
  on_messages-beyond :
      (s : Session) (msgs : List Arrival)
      → c.max_in_bytes < s.in_bytes
      → written (on_messages h c honey s msgs).1 ≡ []
  unfolding on_messages
  on_messages-beyond s [] over = refl
  on_messages-beyond s (a ∷ rest) over =
      let one = on_message-written s a in
      let (s', es) = on_message h c honey s a in
      let now : written es ≡ [] = ground (arith, one) in
      let later : written (on_messages h c honey s' rest).1 ≡ [] =
        on_messages-beyond s' rest (omega (arith, one.0)) in
      rw (written-append es (on_messages h c honey s' rest).1, now, later)

  -- Whatever a client sends, the guest is written exactly the console bytes of the longest run of
  -- its messages, from the first, that stays within MAX_IN_BYTES, in order and unchanged. Control
  -- frames count toward that cap and are never written, and past the cap nothing is.
  pub on_messages-written :
      (s : Session) (msgs : List Arrival)
      → written (on_messages h c honey s msgs).1 ≡ console (within_cap s.in_bytes msgs)
  unfolding on_messages within_cap console
  on_messages-written s [] = refl
  on_messages-written s (a ∷ rest) =
      let one = on_message-written s a in
      let s' = (on_message h c honey s a).0 in
      let es = (on_message h c honey s a).1 in
      let total = s.in_bytes + length (buffer h a) in
      let split = written-append es (on_messages h c honey s' rest).1 in
      elim (Bool-cases (ltb c.max_in_bytes total)) [
        | inl over ↦
            let past : c.max_in_bytes < s'.in_bytes = omega (arith, one.0, ltb→lt _ _ over) in
            let quiet : written es ≡ [] = ground (arith, one.1) in
            rw (over, split, quiet, on_messages-beyond s' rest past)
        | inr fits ↦
            rw (fits, split, on_messages-written s' rest, one.0)
              (ap (λ d. d ++ console (within_cap total rest)) (ground (arith, one.1)))
      ]

  length-console :
      (n : ℕ) (msgs : List Arrival)
      → n ≤ c.max_in_bytes
      → length (console (within_cap n msgs)) + n ≤ c.max_in_bytes
  unfolding within_cap console
  length-console n [] h = omega arith
  length-console n (a ∷ rest) le =
      elim (Bool-cases (ltb c.max_in_bytes (n + length (buffer h a)))) [
        | inl over ↦ rw over (omega arith)
        | inr fits ↦
            let tail = length-console (n + length (buffer h a)) rest (ltb→le _ _ fits) in
            rw fits (
              ground (
                arith,
                tail,
                length-append (buffer h a) (console (within_cap (n + length (buffer h a)) rest)),
              ))
      ]

  -- However many messages a client sends, and of whatever kind, a session that starts with no input
  -- counted writes the guest at most MAX_IN_BYTES bytes in all.
  pub length-written :
      (s : Session) (msgs : List Arrival)
      → s.in_bytes ≡ 0
      → length (written (on_messages h c honey s msgs).1) ≤ c.max_in_bytes
  length-written s msgs e =
      rw (on_messages-written s msgs, e) (omega (arith, length-console 0 msgs (omega arith)))
