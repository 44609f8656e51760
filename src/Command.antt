-- ===== src/Command.antt =====
-- pkg/monny/command.go and handlers.go: the state of a monitored process, the handlers that the
-- loop of Exec calls, and the lines of output that it keeps.
mod Record
mod Handlers
mod Loop
pub mod Files
pub mod Outcomes
pub mod Memory
pub mod Output
pub mod Exec
pub mod Smaps
mod Tests
unfoldable pub use Record.*
unfoldable pub use Handlers.*
unfoldable pub use Loop.*
