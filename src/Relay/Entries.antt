-- ===== src/Relay/Entries.antt =====
-- The entries of the client table of the relay: udp_proxy.rs, outbound_for.
use codery.Base.{
  ℕ, ◌+◌, ◌≤◌, ◌≡◌, refl, sym, ap, ◌∙◌, subst, ◌≢◌, inl, inr, Bool, true, false, Option, some, [],
  ◌∷◌, arith, leb, Text, length, retain, In, Assoc, lookup, insert, Result,
}
use codery.Base.Lists.Membership.{In-retain}
use codery.Base.Lists.Sorted.{Distinct}
use codery.Base.Maps.Keys.{key_of, insert-Distinct, lookup-In, In-lookup, lookup-insert-cases}
use codery.Relay.{max_clients, ClientEntry, Relay, start, receive, sweep, forwarder_ends}

-- No client and no forwarder holds the socket.
pub record IsFresh (k : ℕ) (s : Relay) : Type 0 where
  pub unheld : (p : Text) (e : ClientEntry) → lookup p s.clients ≡ some e → e.outbound ≢ k
  pub unforwarded : (c : Text) → In (k, c) s.forwarders → ⊥

-- What can happen to a relay. The socket that `bind` gives is one that is not open.
pub data Step : Relay → Relay → Type 0 where
  receives :
      (s : Relay) (now : ℕ) (bound : Option ℕ) (found : Result (Text × ℕ)) (peer : Text)
      → ((k : ℕ) → bound ≡ some k → IsFresh k s)
      → Step s (receive now bound found peer s).1
  sweeps : (s : Relay) (now : ℕ) → Step s (sweep now s)
  loses : (s : Relay) (k : ℕ) → Step s (forwarder_ends k s)

pub data Reachable : Relay → Type 0 where
  starts : Reachable start
  steps : (s t : Relay) → Reachable s → Step s t → Reachable t

-- The table is bounded and keyed by peer, no two clients share a socket, and what arrives on a
-- client's socket is forwarded to that client and to nobody else.
pub record IsSound (s : Relay) : Type 0 where
  pub bounded : length s.clients ≤ max_clients
  pub keyed : Distinct key_of s.clients
  pub apart :
      (p q : Text) (e f : ClientEntry)
      → lookup p s.clients ≡ some e
      → lookup q s.clients ≡ some f
      → e.outbound ≡ f.outbound
      → p ≡ q
  pub forwarded :
      (k : ℕ) (c p : Text) (e : ClientEntry)
      → In (k, c) s.forwarders
      → lookup p s.clients ≡ some e
      → e.outbound ≡ k
      → c ≡ p

nothing_first : (p : Text) (e : ClientEntry) → lookup p start.clients ≢ some e
unfolding lookup
nothing_first p e h = cc

pub start-IsSound : IsSound start
start-IsSound = record {
  bounded = omega arith;
  keyed = tt;
  apart = λ p q e f h k o. absurd (nothing_first p e h);
  forwarded = λ k c p e i h o. absurd i;
}

length-insert_old :
    (p : Text) (v w : ClientEntry) (m : Assoc ClientEntry)
    → lookup p m ≡ some w
    → length (insert p v m) ≡ length m
unfolding lookup insert
length-insert_old p v w [] h = ground arith
length-insert_old p v w (e ∷ m) h = ground (arith, length-insert_old p v w m)

length-insert-le :
    (p : Text) (v : ClientEntry) (m : Assoc ClientEntry) → length (insert p v m) ≤ length m + 1
unfolding insert
length-insert-le p v [] = omega arith
length-insert-le p v (e ∷ m) = ground (arith, length-insert-le p v m)

pub lookup-retain :
    (keep : Text × ClientEntry → Bool) (p : Text) (e : ClientEntry) (m : Assoc ClientEntry)
    → Distinct key_of m
    → lookup p (retain keep m) ≡ some e
    → (lookup p m ≡ some e) × (keep (p, e) ≡ true)
lookup-retain keep p e m d h =
    let (i, k) = (In-retain keep (p, e) m).0 (lookup-In p e (retain keep m) h) in
    (In-lookup p e m d i, k)

-- A known client keeps its socket.
old_entry :
    (p q : Text) (v w e : ClientEntry) (m : Assoc ClientEntry)
    → lookup p m ≡ some w
    → v.outbound ≡ w.outbound
    → lookup q (insert p v m) ≡ some e
    → (o : ClientEntry) × (lookup q m ≡ some o) × (o.outbound ≡ e.outbound)
old_entry p q v w e m h same g = elim (lookup-insert-cases p q v e m g) [
  | inl (a, b) ↦ (w, rw a h, sym same ∙ sym (ap (λ (x : ClientEntry). x.outbound) b))
  | inr (a, b) ↦ (e, b, refl)
]

pub known-IsSound :
    (s : Relay) (peer : Text) (v w : ClientEntry)
    → IsSound s
    → lookup peer s.clients ≡ some w
    → v.outbound ≡ w.outbound
    → IsSound (record s { clients = insert peer v s.clients })
known-IsSound s peer v w sound h same = record {
  bounded = rw (length-insert_old peer v w s.clients h) sound.bounded;
  keyed = insert-Distinct peer v s.clients sound.keyed;
  apart = λ p q e f a b o.
      let (e', a', i) = old_entry peer p v w e s.clients h same a in
      let (f', b', j) = old_entry peer q v w f s.clients h same b in
      sound.apart p q e' f' a' b' (i ∙ o ∙ sym j);
  forwarded = λ k c p e i a o.
      let (e', a', j) = old_entry peer p v w e s.clients h same a in
      sound.forwarded k c p e' i a' (j ∙ o);
}

new-apart :
    (s : Relay) (peer : Text) (v : ClientEntry)
    → IsSound s
    → IsFresh v.outbound s
    → (p q : Text) (e f : ClientEntry) → lookup p (insert peer v s.clients) ≡ some e
    → lookup q (insert peer v s.clients) ≡ some f
    → e.outbound ≡ f.outbound
    → p ≡ q
new-apart s peer v sound fresh p q e f a b o = elim (lookup-insert-cases peer p v e s.clients a) [
  | inl (x, y) ↦ elim (lookup-insert-cases peer q v f s.clients b) [
    | inl (x', y') ↦ x ∙ sym x'
    | inr (x', y') ↦ absurd (fresh.unheld q f y' (sym o ∙ ap (λ (u : ClientEntry). u.outbound) y))
  ]
  | inr (x, y) ↦ elim (lookup-insert-cases peer q v f s.clients b) [
    | inl (x', y') ↦ absurd (fresh.unheld p e y (o ∙ ap (λ (u : ClientEntry). u.outbound) y'))
    | inr (x', y') ↦ sound.apart p q e f y y' o
  ]
]

new-forwarded :
    (s : Relay) (peer : Text) (v : ClientEntry)
    → IsSound s
    → IsFresh v.outbound s
    → (k : ℕ) (c p : Text) (e : ClientEntry) → In (k, c) ((v.outbound, peer) ∷ s.forwarders)
    → lookup p (insert peer v s.clients) ≡ some e
    → e.outbound ≡ k
    → c ≡ p
new-forwarded s peer v sound fresh k c p e (inl i) a o =
    elim (lookup-insert-cases peer p v e s.clients a) [
      | inl (x, y) ↦ sym (ap (λ (u : ℕ × Text). u.1) i) ∙ sym x
      | inr (x, y) ↦ absurd (fresh.unheld p e y (o ∙ sym (ap (λ (u : ℕ × Text). u.0) i)))
    ]
new-forwarded s peer v sound fresh k c p e (inr i) a o =
    elim (lookup-insert-cases peer p v e s.clients a) [
      | inl (x, y) ↦
          let held : k ≡ v.outbound = sym o ∙ ap (λ (u : ClientEntry). u.outbound) y in
          absurd (fresh.unforwarded c (subst (λ n. In (n, c) s.forwarders) held i))
      | inr (x, y) ↦ sound.forwarded k c p e i y o
    ]

pub new-IsSound :
    (s : Relay) (peer : Text) (v : ClientEntry)
    → IsSound s
    → IsFresh v.outbound s
    → leb max_clients (length s.clients) ≡ false
    → IsSound (record s {
      clients = insert peer v s.clients;
      forwarders = (v.outbound, peer) ∷ s.forwarders;
    })
new-IsSound s peer v sound fresh h = record {
  bounded = let small = length-insert-le peer v s.clients in ground arith;
  keyed = insert-Distinct peer v s.clients sound.keyed;
  apart = new-apart s peer v sound fresh;
  forwarded = new-forwarded s peer v sound fresh;
}
