-- ===== src/Bridge/Server/Cases.antt =====
-- The branches of the connection handler, for proofs about what it leaves.
use ziran_os.Prelude.{
  ℕ, ◌+◌, ◌<◌, ◌≡◌, String, Bool, true, false, Option, none, some, List, [], ◌∷◌, ◌++◌, inl, inr,
  Bool-cases, Option-cases, arith,
}
use ziran_os.Bridge.Config.{Config, truthy, or_default}
use ziran_os.Bridge.Session.{Host}
use ziran_os.Bridge.Server.{
  World, Pending, Visitor, live_at, find_pending, drop_pending, admission, reserve, on_connect,
  on_verified,
}

module _ (h : Host) (c : Config) (honey : Option String) where
  pub admission-keeps :
      (w : World) (v : Visitor)
      → let w' = (admission h c honey w v).0 in
        (w'.live ≡ w.live)
        × (w'.live_per_ip ≡ w.live_per_ip)
        × (w'.sessions ≡ w.sessions)
        × (w'.pending ≡ w.pending)
  unfolding admission
  admission-keeps w v = ground arith

  -- Who passes the checks found room under both caps.
  pub admission-room :
      (w : World) (v : Visitor)
      → (admission h c honey w v).1 ≡ none
      → (w.live < c.max_concurrent) × (live_at w v.ip < c.max_per_ip)
  unfolding admission
  admission-room w v e = ground arith

  -- A property of the world after a connection, from what its branches leave.
  pub on_connect_cases {ℓ} :
      (P : World → Type ℓ) (w : World) (v : Visitor)
      → let (w', why) = admission h c honey (record w { next_id = w.next_id + 1 }) v in
        P (record w' { rejected = w'.rejected + 1 })
        → P w'
        → (why ≡ none
            → truthy c.turnstile_secret ≡ false
            → P (reserve h c honey w' w.next_id v.ip v.now v.random))
        → (truthy c.turnstile_secret ≡ true
            → P (record w' { pending = w'.pending ++ record { id = w.next_id; ip = v.ip } ∷ [] }))
        → P (on_connect h c honey w v).0
  unfolding on_connect
  on_connect_cases P w v turned_away kept reserved waiting =
      elim (Option-cases (admission h c honey (record w { next_id = w.next_id + 1 }) v).1) [
        | inr (r, e) ↦ rw (e, on_connect) turned_away
        | inl e ↦
            rw (e, on_connect)
              (elim (Bool-cases (truthy c.turnstile_secret)) [
                | inl secret ↦ rw secret (elim (Bool-cases (truthy (or_default v.token ""))) [
                  | inl given ↦ rw given (waiting secret)
                  | inr missing ↦ rw missing turned_away
                ])
                | inr free ↦ rw free (elim (Bool-cases v.ready) [
                  | inl here ↦ rw here (reserved e free)
                  | inr gone ↦ rw gone kept
                ])
              ])
      ]

  pub on_verified_cases {ℓ} :
      (P : World → Type ℓ) (w : World) (id : ℕ) (passed ready : Bool) (now : ℕ) (random : List ℕ)
      → P w
      → ((ps : List Pending) (n : ℕ) (p : Pending)
          → find_pending id w.pending ≡ some p
          → P (record w { pending = ps; rejected = n }))
      → ((p : Pending)
          → find_pending id w.pending ≡ some p
          → P (
              reserve h c honey
                (record w { pending = drop_pending id w.pending })
                id
                p.ip
                now
                random))
      → P (on_verified h c honey w id passed ready now random).0
  unfolding on_verified
  on_verified_cases P w id passed ready now random same changed reserved =
      elim (Option-cases (find_pending id w.pending)) [
        | inl e ↦ rw (e, on_verified) same
        | inr (p, e) ↦
            rw (e, on_verified)
              (elim (Bool-cases passed) [
                | inr failed ↦ rw failed (changed _ _ p e)
                | inl good ↦ rw good (elim (Bool-cases ready) [
                  | inl here ↦ rw here (reserved p e)
                  | inr gone ↦ rw gone (changed _ _ p e)
                ])
              ])
      ]
