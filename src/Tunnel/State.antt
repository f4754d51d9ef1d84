-- ===== src/Tunnel/State.antt =====
-- internal/tunnel.go: the state of a tunnel that the proxy serves, and its operations. The client's
-- connection takes all that is written to it; the log is left out.
use lumine_android.Ttl.Apply.{CalcError}
use lumine_android.Prelude.{
  Bool, Bytes, List, Option, Result, [], if◌then◌else◌, length, map, none, some, true, ℕ, ℤ, ◌++◌,
  ◌+◌, ◌∷◌,
}
use lumine_android.Policy.Types.{Policy}
use lumine_android.Resolve.Env.{Env, Pools}
use lumine_android.Tunnel.Wire.{Wire, WireEvent, Outcome, fault, tls_alert, level_fatal}

-- What the tunnel reads of its surroundings. `dial` says whether the k-th operation, a dial to an
-- address, succeeds, and `succeeds` the same of the operations on the server's connection.
-- `join_host_port` is `net.JoinHostPort` and `format_int` is `strconv.Itoa`, as `F.Int` calls it.
pub record TunnelEnv : Type 0 where
  pub resolve : Env
  pub dial : ℕ → Bytes → Bool
  pub succeeds : ℕ → Bool
  pub join_host_port : Bytes → Bytes → Bytes
  pub format_int : ℤ → Bytes
  pub detect : Bytes → Bool → ℤ → ℤ → ℤ → Result (Unit {0}) ℤ
  pub calc : Option (ℤ → Result CalcError ℤ)
  pub cached : Bytes → Option ℤ

-- An HTTP answer: the status and the header `Location`.
pub record HttpReply : Type 0 where
  pub status : ℤ
  pub location : Option Bytes

pub data TunnelEvent : Type 0 where
  to_client : Bytes → TunnelEvent
  replied : HttpReply → TunnelEvent
  dialed : Bytes → Bool → TunnelEvent
  close_server : TunnelEvent
  wired : WireEvent → TunnelEvent
  requested : TunnelEvent

-- `server` is `dstConn`: the address it was dialed at, or nil.
pub record TunnelState : Type 0 where
  pub policy : Policy
  pub target : Bytes
  pub server : Option Bytes
  pub pools : Pools
  pub events : List TunnelEvent

-- How a handler ends: the tunnel goes on, it is given up with a nil connection, or a panic unwinds.
pub data Handled : Type 0 where
  goes_on gives_up crashes : Handled

abbrev pub handled_of : Outcome → Handled
handled_of none = goes_on
handled_of (some fault) = crashes
handled_of (some _) = gives_up

abbrev pub log_event : TunnelEvent → TunnelState → TunnelState
log_event e s = record s { events = s.events ++ e ∷ [] }

-- `sendTLSAlert` to the client.
unfoldable pub alert_client : Bytes → ℕ → TunnelState → TunnelState
alert_client prt_ver desc s = log_event (to_client (tls_alert prt_ver desc level_fatal)) s

module _ (env : TunnelEnv) where
  -- `dial.DialTCPTimeout`; on success the connection is the server's.
  unfoldable pub dial_server : Bytes → TunnelState → Bool × TunnelState
  dial_server address s =
      let up = env.dial (length s.events) address in
      (
        up,
        record s {
          server = if up then some address else s.server;
          events = s.events ++ dialed address up ∷ [];
        },
      )

  -- `if dstConn == nil`
  unfoldable pub ensure_by : Option Bytes → TunnelState → Bool × TunnelState
  unfolding dial_server
  ensure_by none s = dial_server s.target s
  ensure_by (some address) s = (true, s)

  unfoldable pub ensure_server : TunnelState → Bool × TunnelState
  unfolding ensure_by
  ensure_server s = ensure_by s.server s

  -- Operations on the server's connection; their outcomes go on from those made. A panic of
  -- `sendRecords` is the outcome `fault`.
  unfoldable pub on_wire :
      ((ℕ → Bool) → Wire → Outcome × Wire) → TunnelState → Handled × TunnelState
  on_wire f s =
      let r = f (λ k. env.succeeds (length s.events + k)) [] in
      (handled_of r.0, record s { events = s.events ++ map wired r.1 })
