-- ===== src/Bridge/Session.antt =====
-- The handlers of one connection in ctf-server/bridge.mjs: client messages, the control channel,
-- guest output and the two timers. A handler returns the session and what it does, in order.
pub mod Input
pub mod Submit
use ziran_os.Prelude.{
  ℕ, ◌+◌, ◌≡◌, String, Bool, true, false, not, ◌&&◌, Option, none, some, List, [], ◌∷◌, ◌++◌, ltb,
  leb, if◌then◌else◌, same, take, drop, length,
}
use ziran_os.Prelude.Maps.{text_eq}
use ziran_os.Prelude.Text.{trim}
use ziran_os.Bridge.Config.{Config, truthy}

-- What the code reads of a parsed control message: its fields `type` and `flag` where they are
-- strings.
pub record Message : Type 0 where
  pub kind : Option String
  pub flag : Option String

-- What node:crypto, `JSON.parse` and the decoding of text frames provide. `parse` is `none` where
-- `JSON.parse` throws; `recode` is `Buffer.from(data.toString())`.
pub record Host : Type 0 where
  pub sha256 : String → String
  pub parse : List ℕ → Option Message
  pub recode : List ℕ → List ℕ

-- What the handlers see of the socket and of the guest's stdin when they run.
pub record Socket : Type 0 where
  pub ready : Bool  -- ws.readyState === ws.OPEN
  pub buffered : ℕ  -- ws.bufferedAmount
  pub writable : Bool  -- qemu.stdin.writable

pub record Session : Type 0 where
  pub id : ℕ
  pub ip : String
  pub flag_hash : String
  pub in_bytes : ℕ
  pub submits : ℕ
  pub cleaned : Bool
  pub hard_at : Option ℕ
  pub idle_at : Option ℕ

pub data Verdict : Type 0 where
  correct honeytoken incorrect : Verdict

pub data Note : Type 0 where
  timed_out idle backlog input_cap : Note
  submitted : Verdict → Note

pub data Effect : Type 0 where
  log : Note → Effect
  kill : Effect
  close : ℕ → String → Effect
  send : List ℕ → Effect
  send_text : String → Effect
  send_ctl : Verdict → Effect
  write : List ℕ → Effect

-- `\x00CTL`
abbrev pub ctl : List ℕ
ctl = 0 ∷ b'C' ∷ b'T' ∷ b'L' ∷ []

unfoldable pub is_control : List ℕ → Bool
is_control buf = leb (length ctl) (length buf) && same (take (length ctl) buf) ctl

-- `HONEYTOKEN ? sha256(HONEYTOKEN) : null`
unfoldable pub honeytoken_hash : Host → String → Option String
honeytoken_hash h token = if truthy token then some (h.sha256 token) else none

unfoldable pub judge : Option String → String → String → Verdict
judge honey flag_hash hash = if text_eq hash flag_hash then correct else elim honey [
  | some bait ↦ if truthy bait && text_eq hash bait then honeytoken else incorrect
  | none ↦ incorrect
]

unfoldable pub send_control : Socket → Verdict → List Effect
send_control sock v = if sock.ready then send_ctl v ∷ [] else []

-- The string that a control message submits, if it is a submission.
unfoldable pub submission : Host → List ℕ → Option String
submission h json = elim (h.parse json) [
  | none ↦ none
  | some m ↦ elim m.kind [ none ↦ none | some k ↦ if text_eq k "submit" then m.flag else none ]
]

unfoldable pub handle_control :
    Host → Config → Option String → Socket → Session → List ℕ → Session × List Effect
unfolding judge send_control submission trim
handle_control h c honey sock s json = if leb c.submit_max s.submits then (s, []) else (
  record s { submits = s.submits + 1 },
  elim (submission h json) [
    | none ↦ []
    | some text ↦
        let v = judge honey s.flag_hash (h.sha256 (trim text)) in
        log (submitted v) ∷ send_control sock v
  ],
)

abbrev pub bump_idle : Config → ℕ → Session → Session
bump_idle c now s = record s { idle_at = some (now + c.idle_ms) }

-- A message as it arrives.
pub record Arrival : Type 0 where
  pub now : ℕ
  pub socket : Socket
  pub bytes : List ℕ
  pub is_binary : Bool

abbrev pub buffer : Host → Arrival → List ℕ
buffer h a = if a.is_binary then a.bytes else h.recode a.bytes

-- What follows the counting of the bytes.
unfoldable pub deliver :
    Host → Config → Option String → Socket → Session → List ℕ → Session × List Effect
unfolding handle_control is_control
deliver h c honey sock s buf =
    if ltb c.max_in_bytes s.in_bytes
    then (s, log input_cap ∷ kill ∷ close 1009 "input limit" ∷ [])
    else if is_control buf
    then handle_control h c honey sock s (drop (length ctl) buf)
    else (s, if sock.writable then write buf ∷ [] else [])

unfoldable pub on_message :
    Host → Config → Option String → Session → Arrival → Session × List Effect
unfolding deliver
on_message h c honey s a =
    let buf = buffer h a in
    let s' = bump_idle c a.now s in
    deliver h c honey a.socket (record s' { in_bytes = s'.in_bytes + length buf }) buf

-- The handler of `qemu.stdout`.
unfoldable pub on_guest_data : Config → Socket → List ℕ → List Effect
on_guest_data c sock d =
    if not sock.ready
    then []
    else if ltb c.max_ws_backlog sock.buffered
    then log backlog ∷ kill ∷ close 1009 "output backlog" ∷ []
    else send d ∷ []

unfoldable pub on_hard_timer : Session → Session × List Effect
on_hard_timer s = (
  record s { hard_at = none },
  send_text "\r\n[session ended — time limit reached]\r\n"
      ∷ log timed_out
      ∷ kill
      ∷ close 1000 "session timeout"
      ∷ [],
)

unfoldable pub on_idle_timer : Session → Session × List Effect
on_idle_timer s = (record s { idle_at = none }, log idle ∷ kill ∷ close 1000 "idle timeout" ∷ [])

-- A session's messages in order, with all that they make it do.
unfoldable pub on_messages :
    Host → Config → Option String → Session → List Arrival → Session × List Effect
on_messages h c honey s [] = (s, [])
on_messages h c honey s (a ∷ rest) =
    let (s', now) = on_message h c honey s a in
    let (s'', later) = on_messages h c honey s' rest in (s'', now ++ later)
