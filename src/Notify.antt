-- ===== src/Notify.antt =====
-- src/core/zone/notify.rs and src/net/handler.rs: NOTIFY messages. A request's query is what
-- the DNS crate reads of it; the serial in a request is only logged. Whether a response could be sent is a
-- parameter, and so is what the crate's catalog does with every other request.
pub mod Matching
pub mod Sending
use heimdallr.Common.{
  ℕ, Bool, true, false, not, ◌&&◌, ◌||◌, List, [], ◌∷◌, ◌++◌, Option, none, some, if◌then◌else◌,
}
use heimdallr.Common.Text.{Text, codes, text_eq}
use heimdallr.Dns.{soa as type_soa}
use heimdallr.Dns.Records.{Record, soa, record_type}
use heimdallr.Filter.{unwrap_or}
use heimdallr.Forward.Lookup.{is_type}
use heimdallr.Transfer.{Message}

pub record SecondaryZoneInfo : Type 0 where
  pub name : Text
  pub primaries : List Text

pub data ResponseCode : Type 0 where
  no_error form_err serv_fail : ResponseCode

pub record Request (Name : Type 0) : Type 0 where
  pub is_notify : Bool
  -- the name of its query, if the request is well formed
  pub query : Option Name

module _ {Name : Type 0} where
  -- the first record of type SOA
  unfoldable pub find_soa : List (Record Name) → Option (Record Name)
  unfolding is_type record_type
  find_soa [] = none
  find_soa (r ∷ answers) =
      if is_type (record_type r.data_) type_soa then some r else find_soa answers

  unfoldable pub soa_serial : Option (Record Name) → Option ℕ
  soa_serial none = none
  soa_serial (some r) = elim r.data_ [ soa s ↦ some s.serial | _ ↦ none ]

  -- the serial of a message, or 0
  unfoldable pub serial_of : List (Record Name) → ℕ
  unfolding find_soa soa_serial unwrap_or
  serial_of answers = unwrap_or 0 (soa_serial (find_soa answers))

module _ {Name : Type 0} (to_utf8 : Name → Text) where
  -- `handle_notify` of notify.rs: the zone's name and the serial, or none without a query
  unfoldable pub handle_notify : Message Name → Option (Text × ℕ)
  unfolding serial_of
  handle_notify msg = elim msg.queries [
    | [] ↦ none
    | query ∷ queries ↦ some (to_utf8 query, serial_of msg.answers)
  ]

-- the test of a secondary zone's name
unfoldable pub is_for : Text → SecondaryZoneInfo → Bool
unfolding text_eq
is_for zone_name s = text_eq s.name zone_name || text_eq s.name (zone_name ++ codes ".")

-- the first secondary zone that a NOTIFY is for
unfoldable pub find_secondary : Text → List SecondaryZoneInfo → Option SecondaryZoneInfo
unfolding is_for
find_secondary zone_name [] = none
find_secondary zone_name (s ∷ secondaries) =
    if is_for zone_name s then some s else find_secondary zone_name secondaries

module _ {Name : Type 0} (to_utf8 : Name → Text) (sent : ResponseCode → Bool) where
  -- `send_notify_ack`: the code that is reported
  unfoldable pub send_notify_ack : ResponseCode
  send_notify_ack = if sent no_error then no_error else serv_fail

  -- `send_error`
  unfoldable pub send_error : ResponseCode → ResponseCode
  send_error code = if sent code then code else serv_fail

  -- `HeimdallrHandler::handle_notify`: the code, and the zone for which a transfer is spawned
  unfoldable pub on_notify :
      List SecondaryZoneInfo → Request Name → ResponseCode × Option SecondaryZoneInfo
  unfolding send_notify_ack send_error find_secondary
  on_notify secondaries request = elim request.query [
    | none ↦ (send_error form_err, none)
    | some query ↦ (send_notify_ack, find_secondary (to_utf8 query) secondaries)
  ]

  -- `handle_request`
  unfoldable pub handle_request :
      (Request Name → ResponseCode)
      → List SecondaryZoneInfo
      → Request Name
      → ResponseCode × Option SecondaryZoneInfo
  unfolding on_notify
  handle_request catalog secondaries request =
      if request.is_notify then on_notify secondaries request else (catalog request, none)
