-- ===== src/Relay.antt =====
-- system/orchestrator/src/udp_proxy.rs: the relay of one UDP port. Times are nanoseconds from any
-- start, sockets are numbers and peers are texts. What `bind` gives for a new client's socket and
-- what the resolution of the container's address gives are arguments; logging is left out.
pub mod Entries
pub mod Clients
pub mod Server
pub mod Deaf
use codery.Base.{
  ℕ, ◌-◌, ◌*◌, Bool, true, not, Option, none, some, List, [], ◌∷◌, reverse, ltb, leb, eqb,
  if◌then◌else◌, unwrap_or, map_option, and_then, filter_option, Text, trim, split, length, retain,
  first, is_empty, Assoc, lookup, insert, docker_error, parse_error, Result, ok, err, bind_result,
  ok_or,
}
use codery.Config.{Color, container_name}
use codery.Targets.{UdpTarget}

abbrev pub seconds : ℕ → ℕ
seconds n = n * 1000000000

abbrev pub client_idle : ℕ
client_idle = seconds 300

abbrev pub resolve_ttl : ℕ
resolve_ttl = seconds 2

abbrev pub max_clients : ℕ
max_clients = 16

pub record ClientEntry : Type 0 where
  pub outbound : ℕ
  pub last_seen : ℕ

-- An address is an IP and a port.
pub record Resolved : Type 0 where
  pub addr : Text × ℕ
  pub at : ℕ

-- `forwarders`: the running tasks `forward_replies`, each with its socket and its client.
pub record Relay : Type 0 where
  pub clients : Assoc ClientEntry
  pub resolved : Option Resolved
  pub forwarders : List (ℕ × Text)

abbrev pub start : Relay
start = record { clients = []; resolved = none; forwarders = [] }

unfoldable pub outbound_for : ℕ → Option ℕ → Text → Relay → Option ℕ × Relay
outbound_for now bound peer s = elim (lookup peer s.clients) [
  | some e ↦ (
    some e.outbound,
    record s {
      clients = insert peer (record { outbound = e.outbound; last_seen = now }) s.clients;
    },
  )
  | none ↦ if leb max_clients (length s.clients) then (none, s) else elim bound [
    | none ↦ (none, s)
    | some k ↦ (
      some k,
      record s {
        clients = insert peer (record { outbound = k; last_seen = now }) s.clients;
        forwarders = (k, peer) ∷ s.forwarders;
      },
    )
  ]
]

unfoldable pub is_stale : ℕ → Option Resolved → Bool
is_stale now none = true
is_stale now (some r) = ltb resolve_ttl (now - r.at)

-- The cache after a look at it; `found` is what `resolve_server` gives where it is asked.
unfoldable pub refreshed : ℕ → Result (Text × ℕ) → Option Resolved → Option Resolved
unfolding is_stale
refreshed now (ok a) cached =
    if is_stale now cached then some (record { addr = a; at = now }) else cached
refreshed now (err e) cached = cached

unfoldable pub server_addr : ℕ → Result (Text × ℕ) → Relay → Option (Text × ℕ) × Relay
unfolding refreshed
server_addr now found s =
    let cached = refreshed now found s.resolved in
    (map_option (λ r. r.addr) cached, record s { resolved = cached })

-- A datagram from a peer: the socket that it is sent on and where to, if it is.
unfoldable pub receive :
    ℕ → Option ℕ → Result (Text × ℕ) → Text → Relay → Option (ℕ × (Text × ℕ)) × Relay
unfolding outbound_for server_addr
receive now bound found peer s =
    let (outbound, s') = outbound_for now bound peer s in
    elim outbound [
      | none ↦ (none, s')
      | some k ↦
          let (server, s'') = server_addr now found s' in (map_option (λ a. (k, a)) server, s'')
    ]

-- A tick of the sweeper.
unfoldable pub sweep : ℕ → Relay → Relay
sweep now s = record s { clients = retain (λ c. ltb (now - c.1.last_seen) client_idle) s.clients }

-- The forwarder of a socket ends: the server was silent for too long, or a send failed.
unfoldable pub forwarder_ends : ℕ → Relay → Relay
forwarder_ends k s = record s { forwarders = retain (λ f. not (eqb f.0 k)) s.forwarders }

without_slashes : Text → Text
without_slashes [] = []
without_slashes (c ∷ s) = if eqb c b'/' then without_slashes s else c ∷ s

-- What stands before the first slash of a container's address.
unfoldable pub bare_ip : Text → Text
unfolding without_slashes
bare_ip s = unwrap_or (first (split b'/' (reverse (without_slashes (reverse (trim s)))))) []

-- `inspect` gives the addresses of a container by network; `parse_ip` reads an IP address.
unfoldable pub resolve_server :
    Result Color
    → (Text → Result (Assoc (Option Text)))
    → (Text → Option Text)
    → UdpTarget
    → Result (Text × ℕ)
unfolding bare_ip
resolve_server active inspect parse_ip target = bind_result active λ color.
    bind_result (inspect (container_name target.service color)) λ networks.
      bind_result
        (ok_or
          (filter_option (λ ip. not (is_empty ip))
            (map_option bare_ip (and_then (lookup target.network networks) (λ ip. ip))))
          docker_error)
        λ ip. bind_result (ok_or (parse_ip ip) parse_error) λ a. ok (a, target.container_port)
