-- ===== src/Bridge/Server/Counts.antt =====
-- The counters of the bridge against the sessions that are open.
use text.Mathlib.TextEquality.{eq_iff}
use ziran_os.Prelude.{
  ℕ, ◌+◌, ◌-◌, ◌≡◌, refl, String, Bool, true, false, not, ◌&&◌, Option, none, some, List, [], ◌∷◌,
  if◌then◌else◌, count_if, inl, inr, Bool-cases, Option-cases, arith,
}
use ziran_os.Prelude.Maps.{text_eq, lookup, insert, lookup-insert}
use ziran_os.Bridge.Config.{Config, or_default}
use ziran_os.Bridge.Session.{
  Host, Session, Effect, Arrival, on_message, on_guest_data, on_hard_timer, on_idle_timer,
}
use ziran_os.Bridge.Server.Cases.{admission-keeps, on_connect_cases, on_verified_cases}
use ziran_os.Bridge.Server.{
  turnstile_answer, World, Event, connect, verified, message, guest_data, hard_timer, idle_timer,
  guest_exit, ws_close, ws_error, start, live_at, find_session, put_session, admission, reserve,
  cleanup, in_session, step, run,
}

abbrev pub is_active : Session → Bool
is_active s = not s.cleaned

abbrev pub is_active_at : String → Session → Bool
is_active_at ip s = not s.cleaned && text_eq s.ip ip

-- `live` is the number of sessions not cleaned up, and `livePerIp` their number for each address.
pub record Counts (w : World) : Type 0 where
  pub total : w.live ≡ count_if is_active w.sessions
  pub by_ip : (ip : String) → live_at w ip ≡ count_if (is_active_at ip) w.sessions

abbrev one_if : Bool → ℕ
one_if true = 1
one_if false = 0

count-put_session :
    (p : Session → Bool) (id : ℕ) (s s' : Session) (ss : List Session)
    → find_session id ss ≡ some s
    → count_if p (put_session id s' ss) + one_if (p s) ≡ count_if p ss + one_if (p s')
unfolding find_session put_session
count-put_session p id s s' [] e = cc
count-put_session p id s s' (x ∷ ss) e = ground (arith, count-put_session p id s s' ss)

-- `?? 1` before the decrement comes to the same as `?? 0`, since the result stops at 0.
pub default-pred : (o : Option ℕ) → or_default o 1 - 1 ≡ or_default o 0 - 1
default-pred none = refl
default-pred (some n) = refl

pub live_at-insert :
    (who ip : String) (n : ℕ) (table : List (String × ℕ))
    → or_default (lookup ip (insert who n table)) 0
      ≡ (if text_eq who ip then n else or_default (lookup ip table) 0)
live_at-insert who ip n table = rw (lookup-insert who ip n table) (ground arith)

module _ (w : World) (v : Counts w) where
  put_session-Counts :
      (id : ℕ) (s s' : Session)
      → find_session id w.sessions ≡ some s
      → s'.cleaned ≡ s.cleaned
      → s'.ip ≡ s.ip
      → Counts (record w { sessions = put_session id s' w.sessions })
  put_session-Counts id s s' e same_state same_ip = record {
    total = ground (arith, v.total, count-put_session is_active id s s' w.sessions e);
    by_ip =
        λ ip. ground (arith, v.by_ip ip, count-put_session (is_active_at ip) id s s' w.sessions e);
  }

  in_session-Counts :
      (h : Host) (c : Config) (honey : Option String) (id : ℕ)
      (handler : Session → Session × List Effect)
      → ((s : Session) → ((handler s).0.cleaned ≡ s.cleaned) × ((handler s).0.ip ≡ s.ip))
      → Counts (in_session h c honey w id handler).0
  in_session-Counts h c honey id handler keeps = elim (Option-cases (find_session id w.sessions)) [
    | inl e ↦ rw (e, in_session) v
    | inr (s, e) ↦
        rw (e, in_session) (put_session-Counts id s (handler s).0 e (keeps s).0 (keeps s).1)
  ]

module _ (h : Host) (c : Config) (honey : Option String) where
  cleanup-Counts : (w : World) (id : ℕ) → Counts w → Counts (cleanup h c honey w id).0
  unfolding cleanup
  cleanup-Counts w id v = elim (Option-cases (find_session id w.sessions)) [
    | inl e ↦ rw (e, cleanup) v
    | inr (s, e) ↦
        rw (e, cleanup)
          (elim (Bool-cases s.cleaned) [
            | inl done ↦ rw done v
            | inr alive ↦
                let s' = record s { cleaned = true; hard_at = none; idle_at = none } in
                let moved = λ (p : Session → Bool). count-put_session p id s s' w.sessions e in
                rw alive (record {
                  total = ground (arith, v.total, moved is_active);
                  by_ip = λ ip. ground (
                    arith,
                    v.by_ip ip,
                    eq_iff s.ip ip,
                    default-pred (lookup s.ip w.live_per_ip),
                    live_at-insert s.ip ip (or_default (lookup s.ip w.live_per_ip) 1 - 1)
                        w.live_per_ip,
                    moved (is_active_at ip),
                  );
                })
          ])
  ]

  reserve-Counts :
      (w : World) (id now : ℕ) (ip : String) (random : List ℕ)
      → Counts w
      → Counts (reserve h c honey w id ip now random)
  unfolding reserve
  reserve-Counts w id now ip random v = record {
    total = ground (arith, v.total);
    by_ip = λ who. ground (
      arith,
      v.by_ip ip,
      v.by_ip who,
      eq_iff ip who,
      live_at-insert ip who (live_at w ip + 1) w.live_per_ip,
    );
  }

  same-Counts :
      (w w' : World)
      → w'.live ≡ w.live
      → w'.live_per_ip ≡ w.live_per_ip
      → w'.sessions ≡ w.sessions
      → Counts w
      → Counts w'
  same-Counts w w' live table sessions v = record {
    total = rw (live, sessions) v.total;
    by_ip = λ ip. rw (table, sessions) (v.by_ip ip);
  }

  on_message-state :
      (s : Session) (a : Arrival)
      → let s' = (on_message h c honey s a).0 in (s'.cleaned ≡ s.cleaned) × (s'.ip ≡ s.ip)
  unfolding on_message
  on_message-state s a = ground arith

  step-Counts : (w : World) (e : Event) → Counts w → Counts (step h c honey w e).0
  unfolding step on_hard_timer on_idle_timer
  step-Counts w (connect v) k =
      let w0 = record w { next_id = w.next_id + 1 } in
      let (live, table, sessions, _) = admission-keeps h c honey w0 v in
      let w' = (admission h c honey w0 v).0 in
      let k' = same-Counts w w' live table sessions k in
      on_connect_cases h c honey Counts w v (same-Counts w' _ refl refl refl k') k'
        (λ _ _. reserve-Counts w' w.next_id v.now v.ip v.random k')
        (λ _. same-Counts w' _ refl refl refl k')
  step-Counts w (verified id answer ready now random) k =
      on_verified_cases h c honey Counts w id (turnstile_answer answer) ready now random k
        (λ ps n p _. same-Counts w _ refl refl refl k)
        (λ p _. reserve-Counts _ id now p.ip random (same-Counts w _ refl refl refl k))
  step-Counts w (message id a) k =
      in_session-Counts w k h c honey id (λ s. on_message h c honey s a) (λ s. on_message-state s a)
  step-Counts w (guest_data id sock d) k =
      in_session-Counts w k h c honey id (λ s. (s, on_guest_data c sock d)) (λ s. (refl, refl))
  step-Counts w (hard_timer id) k =
      in_session-Counts w k h c honey id on_hard_timer (λ s. (refl, refl))
  step-Counts w (idle_timer id) k =
      in_session-Counts w k h c honey id on_idle_timer (λ s. (refl, refl))
  step-Counts w (guest_exit id) k = cleanup-Counts w id k
  step-Counts w (ws_close id) k = cleanup-Counts w id k
  step-Counts w (ws_error id) k = cleanup-Counts w id k

  run-Counts_from : (w : World) (es : List Event) → Counts w → Counts (run h c honey w es)
  unfolding run
  run-Counts_from w [] k = k
  run-Counts_from w (e ∷ es) k = run-Counts_from (step h c honey w e).0 es (step-Counts w e k)

  -- After any events at all, in any order, `live` is the number of sessions that are spawned and not
  -- cleaned up, and for every address `livePerIp` (0 where it has no entry) is the number of those
  -- sessions of that address.
  pub run-Counts : (es : List Event) → Counts (run h c honey start es)
  unfolding start lookup
  run-Counts es = run-Counts_from start es (record { total = refl; by_ip = λ ip. refl })
