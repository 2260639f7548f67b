-- ===== src/Relay/Deaf.antt =====
-- A client whose forwarder has ended: udp_proxy.rs, outbound_for and forward_replies.
use codery.Base.{
  ℕ, ◌≡◌, refl, sym, ap, ◌∙◌, subst, ◌≢◌, inl, inr, false≢true, Option, some, List, [], ◌∷◌, leb,
  Bool-cases, Option-cases, Text, ◌==◌, ==_iff, ==_refl, ==_ne, length, All, In, Assoc, lookup,
  insert, lookup-insert, Result,
}
use codery.Relay.{max_clients, ClientEntry, Resolved, Relay, outbound_for, server_addr, receive}

-- A datagram: when it comes, from which peer, and what `bind` and the resolution of the container
-- give then.
pub record Datagram : Type 0 where
  pub at : ℕ
  pub bound : Option ℕ
  pub found : Result (Text × ℕ)
  pub sender : Text

pub receive_all : List Datagram → Relay → Relay
receive_all [] s = s
receive_all (d ∷ ds) s = receive_all ds (receive d.at d.bound d.found d.sender s).1

-- The peer is a client of the socket, which nothing forwards the replies of.
pub record IsDeaf (k : ℕ) (peer : Text) (s : Relay) : Type 0 where
  pub seen : ℕ
  pub client : lookup peer s.clients ≡ some (record { outbound = k; last_seen = seen })
  pub unforwarded : (c : Text) → In (k, c) s.forwarders → ⊥

-- What a datagram from a known client does to its entry and to the forwarders.
outbound_for_known :
    (now k : ℕ) (bound : Option ℕ) (peer : Text) (s : Relay)
    → IsDeaf k peer s
    → ((outbound_for now bound peer s).0 ≡ some k) × IsDeaf k peer (outbound_for now bound peer s).1
unfolding outbound_for
outbound_for_known now k bound peer s d =
    rw (d.client, outbound_for)
      (
        refl,
        record {
          seen = now;
          client = lookup-insert peer peer _ s.clients ∙ rw (==_refl peer) refl;
          unforwarded = d.unforwarded;
        },
      )

resolved-IsDeaf :
    (k : ℕ) (peer : Text) (s : Relay) (r : Option Resolved)
    → IsDeaf k peer s
    → IsDeaf k peer (record s { resolved = r })
resolved-IsDeaf k peer s r d = record {
  seen = d.seen;
  client = d.client;
  unforwarded = d.unforwarded;
}

other_entry :
    (peer sender : Text) (x : ClientEntry) (clients : Assoc ClientEntry)
    → sender ≢ peer
    → lookup peer (insert sender x clients) ≡ lookup peer clients
other_entry peer sender x clients ne =
    lookup-insert sender peer x clients ∙ rw (==_ne sender peer ne) refl

-- What a datagram from another peer does, where a new socket is none that is held.
outbound_for_other :
    (now k : ℕ) (bound : Option ℕ) (peer sender : Text) (s : Relay)
    → sender ≢ peer
    → bound ≢ some k
    → IsDeaf k peer s
    → IsDeaf k peer (outbound_for now bound sender s).1
unfolding outbound_for
outbound_for_other now k bound peer sender s ne new d =
    elim (Option-cases (lookup sender s.clients)) [
      | inr (x, e) ↦
          rw (outbound_for, e)
            (record {
              seen = d.seen;
              client = other_entry peer sender _ s.clients ne ∙ d.client;
              unforwarded = d.unforwarded;
            })
      | inl e ↦ elim (Bool-cases (leb max_clients (length s.clients))) [
        | inl f ↦ rw (outbound_for, e, f) d
        | inr f ↦ elim (Option-cases bound) [
          | inl b ↦ rw (outbound_for, e, f, b) d
          | inr (j, b) ↦
              rw (outbound_for, e, f, b)
                (record {
                  seen = d.seen;
                  client = other_entry peer sender _ s.clients ne ∙ d.client;
                  unforwarded = λ c m. elim m [
                    | inl q ↦ new (b ∙ ap (λ x. some x.0) q)
                    | inr i ↦ d.unforwarded c i
                  ];
                })
        ]
      ]
    ]

outbound-IsDeaf :
    (now k : ℕ) (bound : Option ℕ) (peer sender : Text) (s : Relay)
    → bound ≢ some k
    → IsDeaf k peer s
    → IsDeaf k peer (outbound_for now bound sender s).1
outbound-IsDeaf now k bound peer sender s new d = elim (Bool-cases (sender == peer)) [
  | inl e ↦
      subst (λ p. IsDeaf k peer (outbound_for now bound p s).1) (sym ((==_iff sender peer).0 e))
        (outbound_for_known now k bound peer s d).1
  | inr e ↦
      outbound_for_other now k bound peer sender s
        (λ q. false≢true (sym e ∙ (==_iff sender peer).1 q)) new d
]

receive-IsDeaf :
    (d : Datagram) (k : ℕ) (peer : Text) (s : Relay)
    → d.bound ≢ some k
    → IsDeaf k peer s
    → IsDeaf k peer (receive d.at d.bound d.found d.sender s).1
unfolding receive server_addr
receive-IsDeaf d k peer s new h =
    let after = outbound-IsDeaf d.at k d.bound peer d.sender s new h in
    elim (Option-cases (outbound_for d.at d.bound d.sender s).0) [
      | inl e ↦ rw (e, receive) after
      | inr (j, e) ↦ rw (e, receive) (resolved-IsDeaf k peer _ _ after)
    ]

-- A client whose forwarder has ended stays without one however many datagrams it and others send,
-- where `bind` never gives a socket that is held: its entry and its socket stay, and nothing
-- forwards the replies that arrive there.
pub receive_all-IsDeaf :
    (ds : List Datagram) (k : ℕ) (peer : Text) (s : Relay)
    → All (λ d. d.bound ≢ some k) ds
    → IsDeaf k peer s
    → IsDeaf k peer (receive_all ds s)
unfolding receive_all
receive_all-IsDeaf [] k peer s new h = h
receive_all-IsDeaf (d ∷ ds) k peer s new h =
    receive_all-IsDeaf ds k peer (receive d.at d.bound d.found d.sender s).1 new.1
      (receive-IsDeaf d k peer s new.0 h)
