-- ===== src/Client.antt =====
-- The PowerStore REST client of gopowerstore, which the driver only calls. A client answers every
-- request as any function of the calls made before, so that it can stand for an array that changes
-- in any way. A reply is Go's pair of a value and an error; the value may be read beside an error.
mod Types
pub mod Monad
pub mod Invariants
pub mod Results
unfoldable pub use Types.*
