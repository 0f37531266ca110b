-- ===== src/Hub/Repository.antt =====
-- api/hub/repository.py: the PostgreSQL repository. A method runs in one transaction: it returns the
-- new tables, or raises and leaves them as they were. `now()` and fresh UUIDs are arguments.
pub mod Table
pub mod Marks
pub mod Create
pub mod Claim
pub mod Reconcile
pub mod Effects
pub mod Decided
pub mod Created
pub mod Change
pub mod Sound
pub mod Later
pub mod Leases
pub mod Unleased
pub mod Handover
pub mod Repeats
pub mod Sql
pub mod Queries
