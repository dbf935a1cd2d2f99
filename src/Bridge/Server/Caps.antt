-- ===== src/Bridge/Server/Caps.antt =====
-- The caps on live sessions, when no human check is configured.
use text.Mathlib.TextEquality.{eq_iff}
use ziran_os.Prelude.{
  ℕ, ◌+◌, ◌-◌, ◌≤◌, ◌<◌, ◌≡◌, refl, String, false, Option, some, List, [], ◌∷◌, inl, inr,
  Bool-cases, Option-cases, arith,
}
use ziran_os.Prelude.Maps.{lookup}
use ziran_os.Bridge.Config.{Config, truthy, or_default}
use ziran_os.Bridge.Session.{Host, Session, Effect, on_hard_timer, on_idle_timer}
use ziran_os.Bridge.Server.Cases.{
  admission-keeps, admission-room, on_connect_cases, on_verified_cases,
}
use ziran_os.Bridge.Server.Counts.{live_at-insert, default-pred}
use ziran_os.Bridge.Server.{
  turnstile_answer, World, Pending, Event, connect, verified, message, guest_data, hard_timer,
  idle_timer, guest_exit, ws_close, ws_error, start, live_at, find_session, find_pending, admission,
  reserve, cleanup, in_session, step, run,
}

-- No more sessions than the caps allow, and nobody waits for a human check.
pub record Within (c : Config) (w : World) : Type 0 where
  pub nobody_waits : w.pending ≡ []
  pub total : w.live ≤ c.max_concurrent
  pub by_ip : (ip : String) → live_at w ip ≤ c.max_per_ip

module _ (h : Host) (c : Config) (honey : Option String) where
  same-Within :
      (w w' : World)
      → w'.live ≡ w.live
      → w'.live_per_ip ≡ w.live_per_ip
      → w'.pending ≡ w.pending
      → Within c w
      → Within c w'
  same-Within w w' live table pending v = record {
    nobody_waits = rw pending v.nobody_waits;
    total = rw live v.total;
    by_ip = λ ip. rw table (v.by_ip ip);
  }

  reserve-Within :
      (w : World) (id now : ℕ) (ip : String) (random : List ℕ)
      → w.live < c.max_concurrent
      → live_at w ip < c.max_per_ip
      → Within c w
      → Within c (reserve h c honey w id ip now random)
  unfolding reserve
  reserve-Within w id now ip random room room_at v = record {
    nobody_waits = v.nobody_waits;
    total = omega arith;
    by_ip = λ who.
        ground (
          arith,
          v.by_ip who,
          eq_iff ip who,
          live_at-insert ip who (live_at w ip + 1) w.live_per_ip,
        );
  }

  in_session-Within :
      (w : World) (id : ℕ) (handler : Session → Session × List Effect)
      → Within c w
      → Within c (in_session h c honey w id handler).0
  in_session-Within w id handler v = elim (Option-cases (find_session id w.sessions)) [
    | inl e ↦ rw (e, in_session) v
    | inr (s, e) ↦ rw (e, in_session) (same-Within w _ refl refl refl v)
  ]

  cleanup-Within : (w : World) (id : ℕ) → Within c w → Within c (cleanup h c honey w id).0
  unfolding cleanup
  cleanup-Within w id v = elim (Option-cases (find_session id w.sessions)) [
    | inl e ↦ rw (e, cleanup) v
    | inr (s, e) ↦
        rw (e, cleanup)
          (elim (Bool-cases s.cleaned) [
            | inl done ↦ rw done v
            | inr alive ↦ rw alive (record {
              nobody_waits = v.nobody_waits;
              total = omega (arith, v.total);
              by_ip = λ ip. ground (
                arith,
                v.by_ip ip,
                eq_iff s.ip ip,
                default-pred (lookup s.ip w.live_per_ip),
                live_at-insert s.ip ip (or_default (lookup s.ip w.live_per_ip) 1 - 1) w.live_per_ip,
              );
            })
          ])
  ]

  nobody_found :
      (w : World) (id : ℕ) (p : Pending) → w.pending ≡ [] → find_pending id w.pending ≡ some p → ⊥
  unfolding find_pending
  nobody_found w id p none_waits e = ground arith

  module _ (no_secret : truthy c.turnstile_secret ≡ false) where
    step-Within : (w : World) (e : Event) → Within c w → Within c (step h c honey w e).0
    unfolding step
    step-Within w (connect v) k =
        let w0 = record w { next_id = w.next_id + 1 } in
        let (live, table, _, pending) = admission-keeps h c honey w0 v in
        let w' = (admission h c honey w0 v).0 in
        let k' = same-Within w w' live table pending k in
        on_connect_cases h c honey (Within c) w v (same-Within w' _ refl refl refl k') k'
          (λ e _.
            let (room, room_at) = admission-room h c honey w0 v e in
            reserve-Within w' w.next_id v.now v.ip v.random (rw live room) (rw table room_at) k')
          (λ secret. cc)
    step-Within w (verified id answer ready now random) k =
        on_verified_cases h c honey (Within c) w id (turnstile_answer answer) ready now random k
          (λ ps n p e. absurd (nobody_found w id p k.nobody_waits e))
          (λ p e. absurd (nobody_found w id p k.nobody_waits e))
    step-Within w (message id a) k = in_session-Within w id _ k
    step-Within w (guest_data id sock d) k = in_session-Within w id _ k
    step-Within w (hard_timer id) k = in_session-Within w id on_hard_timer k
    step-Within w (idle_timer id) k = in_session-Within w id on_idle_timer k
    step-Within w (guest_exit id) k = cleanup-Within w id k
    step-Within w (ws_close id) k = cleanup-Within w id k
    step-Within w (ws_error id) k = cleanup-Within w id k

    run-Within_from : (w : World) (es : List Event) → Within c w → Within c (run h c honey w es)
    unfolding run
    run-Within_from w [] k = k
    run-Within_from w (e ∷ es) k = run-Within_from (step h c honey w e).0 es (step-Within w e k)

  -- Without TURNSTILE_SECRET, after any events in any order, at most MAX_CONCURRENT sessions are live
  -- in all and at most MAX_PER_IP for each address, and no connection waits.
  pub run-Within : (es : List Event) → c.turnstile_secret ≡ "" → Within c (run h c honey start es)
  unfolding start lookup
  run-Within es none_set =
      run-Within_from (rw none_set) start es
        (record { nobody_waits = refl; total = omega arith; by_ip = λ ip. omega arith })
