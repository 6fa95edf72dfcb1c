-- ===== src/Lib.antt =====
-- Heimdallr, a DNS server: its cache, filter, forwarding resolver, zones and front ends.
--
-- The program loads its configuration (src/main.rs) and starts the server (src/net/mod.rs): the
-- cache file is read, the zones are loaded (src/core/zone/), the resolver is set up
-- (src/core/resolver/mod.rs) and the listeners are bound. A NOTIFY (src/net/handler.rs) makes a
-- secondary zone be transferred again. The HTTP interface (src/api/mod.rs) shows and edits zones,
-- and the query log (src/core/log/query_log.rs) writes queries to a database.
--
-- A query comes in over TCP (src/net/tcp.rs), perhaps behind a PROXY header (src/net/proxy.rs).
-- The filter (src/core/filter/) decides by client, expression and list whether it is blocked. The
-- cache (src/core/cache/mod.rs) answers it or the upstream is asked, with QNAME minimisation
-- (src/core/resolver/qname_min.rs) if that is on, and DNS64 (src/core/resolver/dns64.rs) may turn
-- the answer into IPv6 addresses. All count what they do in a registry
-- (src/core/metrics/mod.rs). The configuration (src/config/mod.rs) is checked once at the start.
--
-- The files:
--   Common     helpers: tests on numbers, lists, `str` operations on lists of code points, UTF-8,
--              IP addresses and their text, machine words, `&` with a mask
--   HashMap    a `HashMap` as a list of pairs with one pair for a key
--   Metrics    `MetricsRegistry`: `new`, `increment`, `read`, `reset`, and `serialize` (Text)
--   Cache      `Cache` and `CacheEntry`; below it the order of keys (Order), its agreement with
--              the map (Agrees), the invariant, eviction, expiry, reachable caches, the queue that
--              a cache stands for (Queue, Refines), and the file form (Snapshot: `save_to_file`,
--              `load_from_file`)
--   Blocklist  `Blocklist` and `Allowlist`: `is_listed` is `is_blocked` on one list, and
--              `load_source` the recursive loader
--   Filter     `Filter` and `Ipv4Cidr`; below it networks, the verdict, and the checks of an answer
--   Proxy      `parse_proxy_header` and the two parsers behind it
--   Tcp        `resolve_src_addr`, `handle_connection`, `handle_dns_query`
--   Qmin       `peel_labels` and `resolve_with_minimization`
--   Dns64      `Dns64Prefix` and `synthesize_aaaa`
--   Forward    `CacheForwardAuthority` (src/core/resolver/forward.rs): client subnets (Subnet), what
--              it calls and its state (Service), `lookup_any`, the check of the cache and the
--              prefetch (Lookup), the rest of `lookup` (Resolve), and the theorems on them
--   ZoneRecord `insert_record`, `delete_records`, `parse_tlsa_data`, `parse_record_type`,
--              `parse_rdata` (src/core/zone/record.rs), and the listing of records (Listing)
--   Config     `Config::validate`, `soa_rname`, `ns_name`, the defaults (Defaults), and the
--              certificates of src/net/cert.rs (Tls)
--   Resolver   `ResolverWrap::from_config` (src/core/resolver/mod.rs)
--   Net        `Net::run` (src/net/mod.rs): listeners, the cache file (Persistent), the start as a
--              whole (Start)
--   QueryLog   `QueryLogWriter` (src/core/log/query_log.rs) as a step relation (Delivery)
--   Api        the handlers of src/api/mod.rs; `records_listed` and `records_got` are its
--              `list_records` and `get_records`; Api.Serving its routes and what `run` listens on
--   Access     src/auth/mod.rs and src/apps/mod.rs
--   Startup    `load_config` (src/main.rs)
--   Dns        record types, record data and records of the DNS crate, as far as they are read
--   Transfer   `axfr_records_from_primary`, `axfr_from_primary` (src/core/zone/secondary.rs)
--   Notify     `handle_notify`, `send_notify` (src/core/zone/notify.rs), `HeimdallrHandler`
--              (src/net/handler.rs)
--   Catalog    `CatalogZoneHandler` (src/core/zone/catalog.rs)
--   Keys       key names and files (src/core/dnssec/keygen.rs)
--   ZoneFile   `load_zone_file_with_proof` (src/core/zone/file.rs), `persist_zone` (record.rs)
--   ZoneManager `load_all` (src/core/zone/mod.rs)
--   Udp        `handle_query` (src/net/udp.rs)
--   Tests      the theorems at concrete inputs
--
-- State is passed along, and the global registry with it. Durations are nanoseconds and an
-- operation on the cache takes the time that its clock gives. Counters are 64-bit words and wrap.
-- The parameters are code from outside the repository: the contents of files and URLs, regular
-- expressions, the JSON codec of the cache file, DNS names (an interface with the law that the
-- root has no labels), the answers of the upstream resolver (one for each lookup of a run), the query
-- handler behind a connection, the text that an address prints as, and, for zones and records,
-- the zone handler, the catalog and the message codec of the DNS crate, the file system, the key
-- files of the crypto crate, hexadecimal decoding and upper-casing. The forwarding authority has
-- them as one interface, `Services`, with the law that a written message is read back, its names
-- fully qualified and its answers cut if they do not fit; its times
-- are a function of the number of lookups made, and a prefetch is a task that may run at any time.
--
-- Fuel: the eviction loop of an insertion has a round for each key of the order and one more; the
-- walk up a name has one for each character; the loader has the source's depth limit; a
-- connection's loop has one for each byte of the stream; a transfer has one for each byte that is
-- sent and one more; the peeling of a name has one for each
-- label. Where the bound is not the source's own, a theorem says that it is enough, or the
-- function's result is described in full with it.
--
-- Not modelled: the text forms of SVCB, SSHFP and ANAME data, which are wrappers of the DNS crate;
-- the accept loop of the HTTP interface and the matching of a path with its routes, which are other
-- crates'; the set-up of logging; the placeholders for DHCP and clusters; and sockets, timeouts and locks.
mod Common
pub mod HashMap
pub mod Dns
pub mod Metrics
pub mod Cache
pub mod Blocklist
pub mod Filter
pub mod Proxy
pub mod Tcp
pub mod Qmin
pub mod Dns64
pub mod Forward
pub mod Resolver
pub mod ZoneRecord
pub mod Transfer
pub mod Notify
pub mod Catalog
pub mod Keys
pub mod ZoneFile
pub mod ZoneManager
pub mod Udp
pub mod QueryLog
pub mod Net
pub mod Api
pub mod Access
pub mod Startup
pub mod Config
mod Tests
