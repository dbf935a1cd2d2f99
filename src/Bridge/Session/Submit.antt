-- ===== src/Bridge/Session/Submit.antt =====
-- What the control channel answers.
use mathlib.Core.Option.{some-injective}
use text.Mathlib.TextEquality.{eq_iff}
use ziran_os.Prelude.{
  ℕ, suc, ◌+◌, ◌≤◌, ◌<◌, ◌≡◌, ◌≢◌, ◌↔◌, String, true, Option, none, some, List, [], ◌∷◌, ◌++◌,
  length, arith,
}
use ziran_os.Prelude.Text.{trim}
use ziran_os.Bridge.Config.{Config}
use ziran_os.Bridge.Session.{
  Host, Session, Verdict, correct, honeytoken, timed_out, idle, backlog, input_cap, submitted,
  Effect, log, kill, close, send, send_text, send_ctl, write, Arrival, ctl, is_control,
  send_control, judge, submission, handle_control, deliver, on_message, on_messages,
}

-- How many submissions a list of effects writes to the log.
abbrev pub logged : List Effect → ℕ
logged [] = 0
logged (log (submitted v) ∷ es) = suc (logged es)
logged (log timed_out ∷ es) = logged es
logged (log idle ∷ es) = logged es
logged (log backlog ∷ es) = logged es
logged (log input_cap ∷ es) = logged es
logged (write d ∷ es) = logged es
logged (kill ∷ es) = logged es
logged (close k r ∷ es) = logged es
logged (send d ∷ es) = logged es
logged (send_text t ∷ es) = logged es
logged (send_ctl v ∷ es) = logged es

-- How many verdicts it sends.
abbrev pub replies : List Effect → ℕ
replies [] = 0
replies (send_ctl v ∷ es) = suc (replies es)
replies (log n ∷ es) = replies es
replies (write d ∷ es) = replies es
replies (kill ∷ es) = replies es
replies (close k r ∷ es) = replies es
replies (send d ∷ es) = replies es
replies (send_text t ∷ es) = replies es

logged-append : (xs ys : List Effect) → logged (xs ++ ys) ≡ logged xs + logged ys
logged-append [] ys = omega arith
logged-append (log (submitted v) ∷ es) ys = omega (arith, logged-append es ys)
logged-append (log timed_out ∷ es) ys = logged-append es ys
logged-append (log idle ∷ es) ys = logged-append es ys
logged-append (log backlog ∷ es) ys = logged-append es ys
logged-append (log input_cap ∷ es) ys = logged-append es ys
logged-append (write d ∷ es) ys = logged-append es ys
logged-append (kill ∷ es) ys = logged-append es ys
logged-append (close k r ∷ es) ys = logged-append es ys
logged-append (send d ∷ es) ys = logged-append es ys
logged-append (send_text t ∷ es) ys = logged-append es ys
logged-append (send_ctl v ∷ es) ys = logged-append es ys

replies-append : (xs ys : List Effect) → replies (xs ++ ys) ≡ replies xs + replies ys
replies-append [] ys = omega arith
replies-append (send_ctl v ∷ es) ys = omega (arith, replies-append es ys)
replies-append (log n ∷ es) ys = replies-append es ys
replies-append (write d ∷ es) ys = replies-append es ys
replies-append (kill ∷ es) ys = replies-append es ys
replies-append (close k r ∷ es) ys = replies-append es ys
replies-append (send d ∷ es) ys = replies-append es ys
replies-append (send_text t ∷ es) ys = replies-append es ys

-- A verdict, told from the hashes: `correct` for the hash of the session's flag only, `honeytoken`
-- for that of a bait that is not it.
abbrev pub Judges : Option String → String → String → Verdict → Type 0
Judges honey flag_hash hash v =
    ((v ≡ correct) ↔ (hash ≡ flag_hash))
    × ((v ≡ honeytoken) ↔ ((hash ≢ flag_hash) × (honey ≡ some hash) × (hash ≢ "")))

judge-Judges :
    (honey : Option String) (flag_hash hash : String)
    → Judges honey flag_hash hash (judge honey flag_hash hash)
unfolding judge
judge-Judges none flag_hash hash = (
  (λ e. ground (arith, eq_iff hash flag_hash), λ e. ground (arith, eq_iff hash flag_hash)),
  (λ e. ground (arith, eq_iff hash flag_hash), λ e. cc (e.1)),
)
judge-Judges (some bait) flag_hash hash = (
  (
    λ e. ground (arith, eq_iff hash flag_hash, eq_iff hash bait),
    λ e. ground (arith, eq_iff hash flag_hash),
  ),
  (
    λ e. honeytoken_only e,
    λ e.
        ground
          (arith, eq_iff hash flag_hash, eq_iff hash bait, eq_iff bait "", some-injective (e.1)),
  ),
)
  where
    honeytoken_only :
        judge (some bait) flag_hash hash ≡ honeytoken
        → (hash ≢ flag_hash) × (some bait ≡ some hash) × (hash ≢ "")
    honeytoken_only e = (
      λ p. ground (arith, eq_iff hash flag_hash),
      ground (arith, eq_iff hash flag_hash, eq_iff hash bait),
      λ p. ground (arith, eq_iff hash flag_hash, eq_iff hash bait, eq_iff bait ""),
    )

is_control-ctl : (json : List ℕ) → is_control (ctl ++ json) ≡ true
unfolding is_control
is_control-ctl json = ground arith

module _ (h : Host) (c : Config) (honey : Option String) where
  -- One message spends no more of the allowance than the submissions that it logs, and never
  -- starts one beyond it.
  on_message-submits :
      (s : Session) (a : Arrival)
      → s.submits ≤ c.submit_max
      → let (s', es) = on_message h c honey s a in
        (s.submits + logged es ≤ s'.submits)
        × (replies es ≤ logged es)
        × (s'.submits ≤ c.submit_max)
  unfolding on_message handle_control
  on_message-submits s a le = ground arith

  on_messages-submits :
      (s : Session) (msgs : List Arrival)
      → s.submits ≤ c.submit_max
      → let (s', es) = on_messages h c honey s msgs in
        (s.submits + logged es ≤ c.submit_max) × (replies es ≤ logged es)
  unfolding on_messages
  on_messages-submits s [] le = omega arith
  on_messages-submits s (a ∷ rest) le =
      let one = on_message-submits s a le in
      let s' = (on_message h c honey s a).0 in
      let es = (on_message h c honey s a).1 in
      let later = (on_messages h c honey s' rest).1 in
      omega (
        arith,
        one,
        on_messages-submits s' rest one.2,
        logged-append es later,
        replies-append es later,
      )

  -- In a whole session, whatever the client sends, at most SUBMIT_MAX submissions are logged and at
  -- most SUBMIT_MAX verdicts are sent.
  pub submits_bounded :
      (s : Session) (msgs : List Arrival)
      → s.submits ≡ 0
      → let es = (on_messages h c honey s msgs).1 in
        (logged es ≤ c.submit_max) × (replies es ≤ c.submit_max)
  submits_bounded s msgs e = omega (arith, on_messages-submits s msgs (omega arith))

  -- A submission that arrives in a binary control frame, within the input cap and the submission
  -- allowance, on an open socket, is logged and answered with one verdict. It is `correct` exactly
  -- when the hash of the trimmed text is that of the session's flag, and `honeytoken` exactly when it
  -- is another hash, the non-empty one of the bait.
  pub on_message-verdict :
      (s : Session) (a : Arrival) (json : List ℕ) (text : String)
      → a.is_binary ≡ true
      → a.bytes ≡ ctl ++ json
      → s.in_bytes + length a.bytes ≤ c.max_in_bytes
      → s.submits < c.submit_max
      → a.socket.ready ≡ true
      → submission h json ≡ some text
      → (v : Verdict) × ((on_message h c honey s a).1 ≡ log (submitted v) ∷ send_ctl v ∷ [])
        × Judges honey s.flag_hash (h.sha256 (trim text)) v
  unfolding on_message deliver handle_control send_control
  on_message-verdict s a json text binary frame fits allowed ready found = (
    judge honey s.flag_hash (h.sha256 (trim text)),
    ground (arith, is_control-ctl json),
    judge-Judges honey s.flag_hash (h.sha256 (trim text)),
  )
