-- ===== src/Bridge/Tests.antt =====
-- Runs of the handlers of ctf-server/bridge.mjs on concrete inputs.
use ziran_os.Prelude.{
  ℕ, ◌≡◌, refl, String, true, false, none, some, List, [], ◌∷◌, ◌++◌, inl, All, arith,
}
use ziran_os.Prelude.Maps.{lookup, insert}
use ziran_os.Bridge.Limits.{rate_limited}
use ziran_os.Prelude.Text.{trim}
use ziran_os.Bridge.Config.{Config}
use ziran_os.Bridge.Limits.Rate.{rate_answers, rate_expected, rate_answers-rate_expected}
use ziran_os.Bridge.Limits.Budget.{
  Use, ask, spawn, budget_answers, budget_expected, budget_answers-budget_expected,
}
use ziran_os.Bridge.Session.{
  Host, Socket, Session, Arrival, Verdict, submitted, log, send_ctl, ctl, on_message, on_messages,
  submission,
}
use ziran_os.Bridge.Session.Input.{written, console, within_cap, on_messages-written}
use ziran_os.Bridge.Session.Submit.{Judges, on_message-verdict}
use ziran_os.Bridge.Health.{Status, respond, respond-unauthorised}
use ziran_os.Bridge.Server.{
  World, Event, connect, message, ws_close, guest_exit, Visitor, start, live_at, run,
}
use ziran_os.Bridge.Server.Counts.{Counts, run-Counts}
use ziran_os.Bridge.Server.Caps.{Within, run-Within}
use ziran_os.Bridge.Server.Overlap.{connects, all_verified, Comes, overlap-live}

-- A small configuration.
abbrev small : Config
small = record {
  port = 8080;
  host = "127.0.0.1";
  kernel = "kernel";
  qemu = "qemu";
  mem_mb = 128;
  max_concurrent = 1;
  max_per_ip = 1;
  rate_window_ms = 60;
  rate_max = 2;
  hourly_budget = 2;
  session_ms = 180_000;
  idle_ms = 90_000;
  max_msg_bytes = 100;
  max_in_bytes = 8;
  max_ws_backlog = 100;
  submit_max = 1;
  health_token = "";
  cpu_quota = "60%";
  mem_max = "256M";
  pause_file = "PAUSED";
  turnstile_secret = "";
}

abbrev guarded : Config
guarded = record small { turnstile_secret = "key" }

-- A host with readable hashes, whose control messages submit one fixed text.
abbrev host : Host
host = record {
  sha256 = λ s. s;
  parse = λ json. some (record { kind = some "submit"; flag = some " bait " });
  recode = λ bytes. bytes;
}

abbrev open_socket : Socket
open_socket = record { ready = true; buffered = 0; writable = true }

abbrev session : Session
session = record {
  id = 0;
  ip = "a";
  flag_hash = "flag";
  in_bytes = 0;
  submits = 0;
  cleaned = false;
  hard_at = none;
  idle_at = none;
}

abbrev arrival : List ℕ → Arrival
arrival bytes = record { now = 5; socket = open_socket; bytes = bytes; is_binary = true }

abbrev typed : List Arrival
typed = arrival (1 ∷ 2 ∷ 3 ∷ []) ∷ arrival (ctl ++ 9 ∷ []) ∷ arrival (4 ∷ []) ∷ []

abbrev visitor : Visitor
visitor = record {
  now = 0;
  is_paused = false;
  ip = "a";
  token = some "t";
  ready = true;
  random = 1 ∷ 2 ∷ [];
}

abbrev events : List Event
events =
    connect visitor
    ∷ connect (record visitor { ip = "b" })
    ∷ message 0 (arrival (1 ∷ []))
    ∷ guest_exit 0
    ∷ ws_close 0
    ∷ connect (record visitor { ip = "c" })
    ∷ []

abbrev visits : List (ℕ × String)
visits = (0, "a") ∷ (10, "a") ∷ (20, "b") ∷ (30, "a") ∷ (65, "a") ∷ []

visits_answers : rate_answers small [] visits ≡ false ∷ false ∷ false ∷ true ∷ true ∷ []
unfolding rate_answers rate_limited lookup insert
visits_answers = refl

rate_answers-rate_expected_example : rate_answers small [] visits ≡ rate_expected small [] visits
rate_answers-rate_expected_example =
    rate_answers-rate_expected small visits
      (omega arith, (omega arith, (omega arith, (omega arith, (omega arith, tt)))))

abbrev uses : List Use
uses = spawn 0 ∷ spawn 10 ∷ ask 20 ∷ ask 3_600_005 ∷ []

budget_answers-budget_expected_example :
    budget_answers small [] uses ≡ budget_expected small [] uses
budget_answers-budget_expected_example =
    budget_answers-budget_expected small uses
      (omega arith, (omega arith, (omega arith, (omega arith, tt))))

abbrev two_bytes : List ℕ
two_bytes = 1 ∷ 255 ∷ []

on_messages-written_example :
    written (on_messages host small none session typed).1
    ≡ console host small none (within_cap host small none 0 typed)
on_messages-written_example = on_messages-written host small none session typed

on_message-verdict_example :
    (v : Verdict) × ((on_message host small (some "bait") session (arrival (ctl ++ 9 ∷ []))).1
      ≡ log (submitted v) ∷ send_ctl v ∷ [])
    × Judges (some "bait") "flag" (trim " bait ") v
unfolding submission
on_message-verdict_example =
    on_message-verdict host small (some "bait") session (arrival (ctl ++ 9 ∷ [])) (9 ∷ []) " bait "
      refl refl (omega arith) (omega arith) refl refl

abbrev status : Status
status = record {
  is_paused = false;
  live = 3;
  spawned = 9;
  rejected = 1;
  hourly_spawns = 4;
  started_at = 0;
  now = 5000;
}

respond-unauthorised_example :
    respond small status "/health" (some "guess")
    ≡ respond guarded (record status { live = 7 }) "/health" (some "guess")
respond-unauthorised_example =
    respond-unauthorised small guarded status (record status { live = 7 }) "/health" (some "guess")
      refl refl (inl refl)

run-Counts_example : Counts (run host small none start events)
run-Counts_example = run-Counts host small none events

run-Within_example : Within small (run host small none start events)
run-Within_example = run-Within host small none events refl

-- A bridge that has served before, and two visitors at different times.
abbrev used : World
used = record start { spawned = 7; rejected = 3; spawn_times = 0 ∷ []; next_id = 10 }

abbrev visitors : List Visitor
visitors = visitor ∷ record visitor { now = 40; token = some "u" } ∷ []

abbrev answers : List (ℕ × List ℕ)
answers = (50, 1 ∷ []) ∷ (70, 2 ∷ []) ∷ []

visitors-Comes : All (Comes "a") visitors
visitors-Comes = (
  record { same_ip = refl; unpaused = refl; has_token = refl },
  (record { same_ip = refl; unpaused = refl; has_token = refl }, tt),
)

overlap-live_example :
    let w = run host guarded none used (connects visitors ++ all_verified 10 answers) in
    (w.live ≡ 2) × (live_at w "a" ≡ 2)
unfolding start lookup
overlap-live_example =
    overlap-live host guarded none "a" used refl (omega arith) (omega arith) (omega arith) visitors
      answers visitors-Comes refl refl (omega arith)
