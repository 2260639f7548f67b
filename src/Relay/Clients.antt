-- ===== src/Relay/Clients.antt =====
-- The client table of the relay: udp_proxy.rs, outbound_for and the sweeper.
use codery.Base.{
  ℕ, ◌-◌, le_trans, ◌≡◌, refl, inl, inr, Bool, not, Option, some, ltb, leb, eqb, Bool-cases,
  Option-cases, Text, length, retain, length-retain-le, lookup, Result,
}
use codery.Base.Lists.Membership.{In-retain}
use codery.Base.Lists.Sorted.{Distinct-retain}
use codery.Base.Maps.Keys.{key_of}
use codery.Relay.{
  client_idle, max_clients, ClientEntry, Resolved, Relay, outbound_for, server_addr, receive, sweep,
  forwarder_ends,
}
use codery.Relay.Entries.{
  Step, Reachable, starts, steps, IsSound, IsFresh, receives, sweeps, loses, start-IsSound,
  lookup-retain, known-IsSound, new-IsSound,
}

outbound_for-IsSound :
    (s : Relay) (now : ℕ) (bound : Option ℕ) (peer : Text)
    → IsSound s
    → ((k : ℕ) → bound ≡ some k → IsFresh k s)
    → IsSound (outbound_for now bound peer s).1
unfolding outbound_for
outbound_for-IsSound s now bound peer sound fresh = elim (Option-cases (lookup peer s.clients)) [
  | inl e ↦ elim (Bool-cases (leb max_clients (length s.clients))) [
    | inl full ↦ rw (e, full, outbound_for) sound
    | inr room ↦ elim (Option-cases bound) [
      | inl b ↦ rw (e, room, b, outbound_for) sound
      | inr (k, b) ↦
          rw (e, room, b, outbound_for)
            (new-IsSound s peer (record { outbound = k; last_seen = now }) sound (fresh k b) room)
    ]
  ]
  | inr (w, e) ↦
      rw (e, outbound_for)
        (known-IsSound s peer (record { outbound = w.outbound; last_seen = now }) w sound e refl)
]

-- Only the cached address differs.
resolved-IsSound :
    (s : Relay) (r : Option Resolved) → IsSound s → IsSound (record s { resolved = r })
resolved-IsSound s r v = record {
  bounded = v.bounded;
  keyed = v.keyed;
  apart = v.apart;
  forwarded = v.forwarded;
}

receive-IsSound :
    (s : Relay) (now : ℕ) (bound : Option ℕ) (found : Result (Text × ℕ)) (peer : Text)
    → IsSound s
    → ((k : ℕ) → bound ≡ some k → IsFresh k s)
    → IsSound (receive now bound found peer s).1
unfolding receive server_addr
receive-IsSound s now bound found peer sound fresh =
    let after = outbound_for-IsSound s now bound peer sound fresh in
    elim (Option-cases (outbound_for now bound peer s).0) [
      | inl e ↦ rw (e, receive) after
      | inr (k, e) ↦ rw (e, receive) (resolved-IsSound (outbound_for now bound peer s).1 _ after)
    ]

sweep-IsSound : (s : Relay) (now : ℕ) → IsSound s → IsSound (sweep now s)
unfolding sweep
sweep-IsSound s now v = record {
  bounded = le_trans (length-retain-le recent s.clients) v.bounded;
  keyed = Distinct-retain key_of recent s.clients v.keyed;
  apart = λ p q e f a b o. v.apart p q e f (before p e a) (before q f b) o;
  forwarded = λ k c p e i a o. v.forwarded k c p e i (before p e a) o;
}
  where
    recent : Text × ClientEntry → Bool
    recent c = ltb (now - c.1.last_seen) client_idle

    before :
        (p : Text) (e : ClientEntry)
        → lookup p (retain recent s.clients) ≡ some e
        → lookup p s.clients ≡ some e
    before p e h = (lookup-retain recent p e s.clients v.keyed h).0

forwarder_ends-IsSound : (s : Relay) (k : ℕ) → IsSound s → IsSound (forwarder_ends k s)
unfolding forwarder_ends
forwarder_ends-IsSound s k v = record {
  bounded = v.bounded;
  keyed = v.keyed;
  apart = v.apart;
  forwarded = λ j c p e i.
      v.forwarded j c p e ((In-retain (λ f. not (eqb f.0 k)) (j, c) s.forwarders).0 i).0;
}

Step-IsSound : (s t : Relay) → Step s t → IsSound s → IsSound t
Step-IsSound _ _ (receives s now bound found peer fresh) v =
    receive-IsSound s now bound found peer v fresh
Step-IsSound _ _ (sweeps s now) v = sweep-IsSound s now v
Step-IsSound _ _ (loses s k) v = forwarder_ends-IsSound s k v

-- In every state that a relay can get into, if `bind` gives sockets that are not held, there are
-- at most 16 clients, each peer has one entry, no two clients share a socket, and a forwarder of
-- a client's socket replies to that client.
pub Reachable-IsSound : (s : Relay) → Reachable s → IsSound s
Reachable-IsSound _ starts = start-IsSound
Reachable-IsSound _ (steps s t r e) = Step-IsSound s t e (Reachable-IsSound s r)
