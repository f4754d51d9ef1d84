-- ===== src/Lib.antt =====
-- Lumine for Android: the core of a proxy that changes how TLS connections start.
--
-- A request for a host and a port becomes a destination and a policy; the ClientHello of the
-- connection is parsed, and sent in pieces or behind a fake packet as the policy says. The files:
--
--   Prelude   shared types, tests on numbers, lists, signed integers, results, byte slices.
--   Fragment  internal/fragment.go, and findLastDotOrMidPos of internal/utils.go. Split:
--             splitAndAppend and makeRecord. Send: sendRecords as the list of its operations on the
--             connection, and `perform`, which makes them until one fails. Direct: sendRecords with
--             each of its error returns; Performs and Returns: Direct against Send. Pieces, Records,
--             Carried and Delivery: what the pieces carry to the receiver. Parsed: a ClientHello
--             that is parsed and then sent.
--   Tls       parseClientHello of internal/utils.go (Parse) and the bounds of its results (Bounds).
--   Policy    internal/policy.go up to mergePolicies, and DNSMode of internal/dns.go. Types: the
--             record and the enumerations. Names: their texts. Decode, Range: Policy.UnmarshalJSON
--             behind the JSON decoder. Defaults: normalizePolicyDefaults. Merge, Fields:
--             mergePolicies.
--   Pool      internal/ippool.go. State: IPPool and its invariant. Patterns, Expanded: expandPattern
--             of internal/utils.go. Config, Sources, Accepted: parseIPList and IPPool.UnmarshalJSON.
--             Rank, Update: updateBest. Select: Get.
--   Ttl       internal/desync_rules.go (Rules, Ends) and internal/desync.go (Apply, Choice).
--   Resolve   genPolicy (GenPolicy) and resolveDoHPolicyHost (DohHost) of internal/policy.go,
--             transformIP (Transform, Mapped) and ipRedirect (Redirect) of internal/utils.go,
--             getFromIPPool of internal/ippool.go (Redirect),
--             PlanRequest of internal/dial_plan.go (Plan). Env holds the tables and the network.
--             Blocking, Unmatched and Planned: what comes out.
--   Dns       internal/dns.go: dnsResolve (Resolver) and where its texts come from (Answered,
--             Provenance, Cached). internal/dns_mobile.go: HandleDNSQueryPacket (Mobile, Given), the
--             domains of answered addresses (Mapping, Remembered), and from an answer to the request
--             for its address (Recovered).
--   Tunnel    internal/tun_bridge.go: tunPolicyConn (Bridge) over the operations on a connection
--             (Wire); sequences of writes (Stream, Chunks, Refused). internal/tunnel.go: the state
--             (State), handleTLS (HandleTls), handleHTTP and handleTunnel (HandleTunnel); the
--             connections opened and closed (Counts, Balance, Served); a tunnel for a packet that no
--             handler knows (Unserved).
--   Socks     internal/socks5.go: socks5Handler up to its tunnel and with it (Handler), requests as
--             bytes (Encoded), and the connections to servers (Opened, Started).
--   Http      internal/http.go: httpHandler, handleConnect and forwardHTTPRequest (Handler), and the
--             connections to servers (Connected, Started).
--   Config    internal/config.go: validateConfigBasics and resetConfigState (Load), LoadConfig (Steps),
--             and what it leaves (Monitors, Reset).
--   Stats     mobile/stats.go. State: the counters and events. Calls, Trim, History: what a snapshot
--             shows after a list of calls.
--   Tests     runs on small inputs, and the theorems at inputs that meet their hypotheses.
--
-- Parameters stand for code of other packages: the matchers of github.com/moi-si/addrtrie (Env),
-- net and net/netip (Env, Pool.Config.Addresses), time.ParseDuration, the network's answers,
-- the TTL probe, the exchange of DNS messages, the packing of github.com/miekg/dns, and whether each
-- dial and write succeeds. So is a pool's quotient of floats. The DNS cache of
-- github.com/elastic/go-freelru is an interface with laws. genPolicy takes the results of dnsResolve
-- as a function of the domain and the mode. PlanRequest takes lookupMobileDNSMapping at the time of
-- the call as a function, which Dns.Recovered fills.
--
-- Bytes and lengths are plain numbers. The length of a record and the counter of a pool wrap as in
-- the source, at 2^16 and 2^32, and so do the port of a policy in a SOCKS5 target and the capacities
-- of the caches. Signed fields are integers without a width.
--
-- Loops on fuel: the extensions of a ClientHello, one round for each byte and one more; the rules of
-- a TTL, one more than the length of the text; a pattern, one more than its length; a prefix of
-- addresses, 1001, since the pool's limit ends the loop before. Running out is an error value of its
-- own, which the theorems exclude.
--
-- Not modelled: sockets and system calls, the log, locks and goroutines (an operation on a pool is
-- one step, and a DNS query does not wait for the same one of another caller), the copying of bytes
-- through a tunnel, the loops that accept connections, the JSON decoder, the rest of the mobile
-- bindings, the Android app, and tun2socks, which is a copy of another project.
pub mod Prelude
pub mod Fragment
pub mod Tls
pub mod Policy
pub mod Pool
mod Tests
pub mod Ttl
pub mod Dns
pub mod Resolve
pub mod Stats
pub mod Tunnel
pub mod Socks
pub mod Http
pub mod Config
