-- ===== src/Transfer.antt =====
-- src/core/zone/secondary.rs, and the loops over primaries of src/core/zone/mod.rs and
-- src/net/handler.rs. What a primary sends on a connection is a list of bytes up to its end; the
-- decoding of a message, the parsing of an address and of a name, and the zone handler that
-- records are put into are the DNS crate's and the standard library's.
pub mod Whole
pub mod Fuel
use heimdallr.Common.{
  ℕ, zero, suc, Bool, true, false, not, ◌&&◌, List, [], ◌∷◌, ◌++◌, Option, none, some, ◌==◌,
  if◌then◌else◌, length, get_or, any,
}
use heimdallr.Common.Addr.{u16_from_be}
use heimdallr.Common.Text.{Text}
use heimdallr.Dns.{soa as type_soa}
use heimdallr.Dns.Records.{Record, Soa, soa, record_type}
use heimdallr.Forward.Lookup.{has_type}
use heimdallr.Tcp.{read_exact}

-- a response, as far as it is read
pub record Message (Name : Type 0) : Type 0 where
  pub queries : List Name
  pub answers : List (Record Name)
  pub no_error : Bool
  pub truncation : Bool

-- the variables of the loop
pub record Collected (Name : Type 0) : Type 0 where
  pub records : List (Record Name)
  pub saw_soa_start : Bool
  pub soa_serial : Option ℕ

-- what the transfer calls
pub record Network (Name Authority : Type 0) : Type 0 where
  pub is_addr : Text → Bool
  pub from_ascii : Text → Option Name
  pub connect : Text → Option (List ℕ)
  pub decode : List ℕ → Option (Message Name)
  pub empty : Name → Authority
  pub upsert : Record Name → Authority → Authority

module _ {Name : Type 0} where
  -- a record of an answer section
  unfoldable pub collect : Collected Name → Record Name → Collected Name
  collect c r = elim r.data_ [
    | soa s ↦
        if not c.saw_soa_start
        then record {
          records = c.records ++ r ∷ [];
          saw_soa_start = true;
          soa_serial = some s.serial;
        }
        else c
    | _ ↦ record c { records = c.records ++ r ∷ [] }
  ]

  unfoldable pub collect_all : Collected Name → List (Record Name) → Collected Name
  unfolding collect
  collect_all c [] = c
  collect_all c (r ∷ answers) = collect_all (collect c r) answers

  -- the test after a message
  unfoldable pub is_complete : Message Name → Collected Name → Bool
  unfolding has_type
  is_complete m c = not m.truncation && (c.saw_soa_start && has_type type_soa c.records)

module _ {Name Authority : Type 0} (net : Network Name Authority) where
  -- the loop over the responses, on the rest of the stream; `none` is an error
  unfoldable pub read_responses : ℕ → List ℕ → Collected Name → Option (List (Record Name))
  unfolding read_exact collect_all is_complete
  read_responses zero stream c = none
  read_responses (suc fuel) stream c = elim (read_exact 2 stream) [
    | none ↦ some c.records
    | some (len_buf, rest) ↦
        let msg_len = u16_from_be (get_or len_buf 0 0) (get_or len_buf 1 0) in
        if msg_len == 0 then some c.records else elim (read_exact msg_len rest) [
          | none ↦ none
          | some (msg_buf, rest') ↦ elim (net.decode msg_buf) [
            | none ↦ none
            | some m ↦
                let c' = collect_all c m.answers in
                let more = read_responses fuel rest' c' in
                if not m.no_error then none else if is_complete m c' then some c'.records else more
          ]
        ]
  ]

  unfoldable pub nothing : Collected Name
  nothing = record { records = []; saw_soa_start = false; soa_serial = none }

  unfoldable pub received : Option (List ℕ) → Option (List (Record Name))
  unfolding read_responses nothing
  received none = none
  received (some stream) = read_responses (suc (length stream)) stream nothing

  -- `axfr_records_from_primary`
  unfoldable pub axfr_records_from_primary : Text → Text → Option (List (Record Name))
  unfolding received
  axfr_records_from_primary zone_name primary_addr =
      if net.is_addr primary_addr
      then elim (net.from_ascii zone_name) [
        | none ↦ none
        | some origin ↦ received (net.connect primary_addr)
      ]
      else none

  unfoldable pub upsert_all : List (Record Name) → Authority → Authority
  upsert_all [] authority = authority
  upsert_all (r ∷ records) authority = upsert_all records (net.upsert r authority)

  -- `axfr_from_primary`
  unfoldable pub axfr_from_primary : Text → Text → Option Authority
  unfolding axfr_records_from_primary upsert_all
  axfr_from_primary zone_name primary_addr = elim (net.from_ascii zone_name) [
    | none ↦ none
    | some origin ↦ elim (axfr_records_from_primary zone_name primary_addr) [
      | none ↦ none
      | some records ↦ some (upsert_all records (net.empty origin))
    ]
  ]

  -- the loop over the primaries: the one that the zone was transferred from
  unfoldable pub sync : Text → List Text → Option Text
  unfolding axfr_from_primary
  sync name [] = none
  sync name (primary ∷ primaries) = elim (axfr_from_primary name primary) [
    | some authority ↦ some primary
    | none ↦ sync name primaries
  ]
