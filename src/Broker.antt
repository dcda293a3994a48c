-- ===== src/Broker.antt =====
-- internal/broker, the calls that the root process takes from its socket. `Protocol` has the
-- messages, `Server` what becomes of a connection; `Access`, `Dispatch` and `Timeouts` prove.
pub mod Protocol
pub mod Server
pub mod Access
pub mod Timeouts
pub mod Dispatch
