-- ===== src/Tests/CertRuns.antt =====
-- A certificate that signs itself, made on an empty disk.
use heimdallr.Common.{true, ◌++◌, Option, none, some}
use heimdallr.Common.Text.{Text, codes}
use heimdallr.Config.Tls.{Disk, update, self_signed_paths}

abbrev empty_disk : Disk
empty_disk p = none

-- the PEM texts of a host are its name, and every file can be written
abbrev pems : Text → Option (Text × Text)
pems host = some (host, host)

abbrev both_paths : Text × Text
both_paths =
    self_signed_paths (λ d p. d ++ p) pems (λ d. true) (λ p. true) (codes "ns.example.org.")
      (codes "keys/")

abbrev with_pair : Disk
with_pair =
    update (update empty_disk both_paths.0 (codes "ns.example.org")) both_paths.1
      (codes "ns.example.org")
