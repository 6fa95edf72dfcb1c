-- ===== src/Tests.antt =====
-- The theorems at concrete inputs.
mod CacheRuns
mod FilterRuns
mod NetRuns
mod ResolverRuns
mod LookupRuns
mod ConfigRuns
mod RecordRuns
mod ZoneRuns
mod LoadRuns
mod StartRuns
mod ApiRuns
mod CertRuns
