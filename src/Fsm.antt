-- ===== src/Fsm.antt =====
-- pkg/fsm: a finite state machine over named states, with options that configure it, guards that
-- may refuse a transition, and a variant whose transitions are protected by a nonce.
-- `Defs` models fsm.go, options.go, transition.go and errors.go; `Nonce` models nonce.go.
mod Defs
pub mod Allowed
pub mod Stopping
pub mod Nonce
mod Tests
unfoldable pub use Defs.*
