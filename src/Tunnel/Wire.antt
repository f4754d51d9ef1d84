-- ===== src/Tunnel/Wire.antt =====
-- internal/tun_bridge.go and internal/tunnel.go. The operations made on a connection to a server,
-- in order. Whether the k-th succeeds is up to the connection, as in `perform`. A write takes all
-- its bytes or fails; `desync` stands for `desyncSend`, system calls that send the record behind a
-- fake packet.
use lumine_android.Prelude.{
  Bool, Bytes, List, Option, [], if◌then◌else◌, length, none, some, take, ℕ, ℤ, ◌++◌, ◌∷◌,
}
use lumine_android.Fragment.Send.{
  Operation, write, Options, Step, SendResult, perform, send_records, done, panicked, failed,
}
use lumine_android.Policy.Types.{Policy, is_true}

pub data WireEvent : Type 0 where
  operated : Operation → WireEvent
  desync : Bytes → ℤ → ℤ → ℤ → WireEvent
  close : WireEvent

abbrev pub Wire : Type 0
Wire = List WireEvent

pub data WireError : Type 0 where
  eof write_failed send_failed desync_failed ttl_failed fault : WireError

-- What an operation returns: `none` is no error.
abbrev pub Outcome : Type 0
Outcome = Option WireError

-- `options` of a policy, as they are handed to `sendRecords`.
abbrev pub options_of : Policy → Options
options_of p = record {
  oob = is_true p.oob;
  oobex = is_true p.oob_ex;
  wait_enabled = is_true p.wait_for_ack;
  interval = p.send_interval;
}

-- The bytes of `sendTLSAlert`; `prtVer` has two.
abbrev pub tls_alert : Bytes → ℕ → ℕ → Bytes
tls_alert prt_ver desc level = 0x15 ∷ (take 2 prt_ver ++ (0 ∷ 2 ∷ level ∷ desc ∷ []))

abbrev pub access_denied : ℕ
access_denied = 70

abbrev pub protocol_version : ℕ
protocol_version = 49

abbrev pub level_fatal : ℕ
level_fatal = 2

abbrev pub operations : List Step → Wire
operations [] = []
operations (s ∷ steps) = operated s.operation ∷ operations steps

abbrev pub outcome_of : SendResult → Outcome
outcome_of done = none
outcome_of panicked = some fault
outcome_of (failed l) = some send_failed

module _ (succeeds : ℕ → Bool) where
  unfoldable pub make_event : WireEvent → WireError → Wire → Outcome × Wire
  make_event event e w = (if succeeds (length w) then none else some e, w ++ event ∷ [])

  abbrev pub write_wire : Bytes → Wire → Outcome × Wire
  write_wire bytes w = make_event (operated (write bytes)) write_failed w

  -- `sendRecords` with the fields of a policy.
  unfoldable pub send_by_records : Policy → Bytes → ℤ → ℕ → Wire → Outcome × Wire
  unfolding perform send_records
  send_by_records p record_ sni_start sni_len w =
      let r = perform succeeds (length w) (
        send_records (options_of p) record_ sni_start sni_len p.num_records p.num_segments
          (is_true p.mod_minor_ver)) in
      (outcome_of r.1, w ++ operations r.0)
