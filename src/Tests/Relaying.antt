-- ===== src/Tests/Relaying.antt =====
-- The fixed ports of two services, and a relay with one client.
use codery.Base.{
  ℕ, refl, ap, ◌≢◌, none, some, List, [], ◌∷◌, arith, unwrap_or, Text, codes, ◌==◌, All, lookup,
  insert, Result, ok,
}
use codery.Relay.{
  ClientEntry, Relay, start, outbound_for, is_stale, refreshed, server_addr, receive,
  forwarder_ends,
}
use codery.Relay.Clients.{Reachable-IsSound}
use codery.Relay.Deaf.{Datagram, receive_all, IsDeaf, receive_all-IsDeaf}
use codery.Relay.Entries.{Step, starts, steps, IsSound, receives}
use codery.ServiceDef.{udp, NamedPort, ServiceDef}
use codery.Tests.Mock.{port_of, paseo}

abbrev ssh_port : NamedPort
ssh_port = record (port_of "ssh" 22) { fixed_port = some 2222 }

abbrev mosh_port : NamedPort
mosh_port = record (port_of "mosh" 60001) { fixed_port = some 60001; protocol = udp }

abbrev shell : ServiceDef
shell = record paseo { ports = ssh_port ∷ mosh_port ∷ port_of "web" 8080 ∷ [] }

abbrev server : Result (Text × ℕ)
server = ok (codes "172.18.0.2", 60001)

abbrev peer_a : Text
peer_a = codes "100.64.0.7:50000"

abbrev one_client : Relay
one_client = (receive 5 (some 40) server peer_a start).1

one_client-Step : Step start one_client
one_client-Step =
    receives start 5 (some 40) server peer_a
      (λ k e. record { unheld = λ p c h. absurd (unfold lookup in cc); unforwarded = λ c i. i })

Reachable-IsSound_example : IsSound one_client
Reachable-IsSound_example =
    Reachable-IsSound one_client (steps start one_client starts one_client-Step)

abbrev entry_a : ClientEntry
entry_a = record { outbound = 40; last_seen = 5 }

abbrev held : Relay
held = record { clients = (peer_a, entry_a) ∷ []; resolved = none; forwarders = (40, peer_a) ∷ [] }

-- The forwarder of the client ends, as it does after 300 seconds without a reply.
abbrev deaf : Relay
deaf = forwarder_ends 40 one_client

deaf-IsDeaf : IsDeaf 40 peer_a deaf
unfolding forwarder_ends receive outbound_for server_addr refreshed is_stale insert lookup ◌==◌
deaf-IsDeaf = record { seen = 5; client = refl; unforwarded = λ c i. i }

abbrev datagrams : List Datagram
datagrams =
    record { at = 6; bound = some 41; found = server; sender = codes "10.0.0.9:1" }
    ∷ record { at = 7; bound = none; found = server; sender = peer_a }
    ∷ []

datagrams-unheld : All (λ (d : Datagram). d.bound ≢ some 40) datagrams
datagrams-unheld = ((λ e. omega (arith, ap (λ o. unwrap_or o 40) e)), ((λ e. cc), tt))

receive_all-IsDeaf_example : IsDeaf 40 peer_a (receive_all datagrams deaf)
receive_all-IsDeaf_example =
    receive_all-IsDeaf datagrams 40 peer_a deaf datagrams-unheld deaf-IsDeaf
