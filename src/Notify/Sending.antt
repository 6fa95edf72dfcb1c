-- ===== src/Notify/Sending.antt =====
-- `send_notify` of src/core/zone/notify.rs. The clock's nanoseconds, the message codec and the
-- socket are parameters. The serial is only logged.
use heimdallr.Common.{
  ℕ, ◌%◌, Bool, true, false, ◌&&◌, List, [], ◌∷◌, Option, none, some, if◌then◌else◌,
}
use heimdallr.Common.Addr.{IpAddr}
use heimdallr.Common.Socket.{parse_socket_addr}
use heimdallr.Common.Text.{Text}
use heimdallr.Dns.{RecordType, soa as type_soa}
use heimdallr.Dns.Records.{Record}
use heimdallr.ZoneRecord.{◌>>=◌}

pub data MessageType : Type 0 where
  query response : MessageType

pub data OpCode : Type 0 where
  standard notify : OpCode

-- the message that is sent
pub record Outgoing (Name : Type 0) : Type 0 where
  pub id : ℕ
  pub message_type : MessageType
  pub op_code : OpCode
  pub authoritative : Bool
  pub recursion_desired : Bool
  pub queries : List (Name × RecordType)
  pub answers : List (Record Name)

-- what the sending calls
pub record Sender (Name : Type 0) : Type 0 where
  pub from_ascii : Text → Option Name
  pub to_bytes : Outgoing Name → Option (List ℕ)
  pub bind : Bool
  pub send_to : List ℕ → IpAddr × ℕ → Bool

module _ {Name : Type 0} (sender : Sender Name) where
  unfoldable pub notify_message : Name → ℕ → Outgoing Name
  notify_message origin nanos = record {
    id = nanos % 65536;
    message_type = query;
    op_code = notify;
    authoritative = true;
    recursion_desired = false;
    queries = (origin, type_soa) ∷ [];
    answers = [];
  }

  -- `send_notify`: what is sent to which address
  unfoldable pub send_notify : Text → Text → ℕ → ℕ → Option ((IpAddr × ℕ) × List ℕ)
  unfolding parse_socket_addr notify_message
  send_notify zone_name secondary_addr serial nanos = do
    sock_addr ← parse_socket_addr secondary_addr
    origin ← sender.from_ascii zone_name
    bytes ← sender.to_bytes (notify_message origin nanos)
    if sender.bind && sender.send_to bytes sock_addr then some (sock_addr, bytes) else none
