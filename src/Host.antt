-- ===== src/Host.antt =====
-- The proxy-wasm shared data that the plugins keep their state in, and routines as sequences of
-- host calls. `Store` is the host's interface, a parameter: the host is not part of this
-- repository. `Calls` has routines, `Interleave` the worker threads of one Envoy process.
mod Store
mod Calls
pub mod Run
pub mod Confined
pub mod Interleave
pub mod Table
pub use Store.{Reply, found, missing, broken, Status, ok, cas_mismatch, failed, SharedData}
pub use Calls.{Program, ret, get_shared, set_shared, ask, tell, ◌>>=◌}
unfoldable pub use Calls.{run}
