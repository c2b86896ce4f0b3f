-- ===== src/Runtime.antt =====
-- What a controller runs on: the queue, the API and the events as effects (Effects), the libraries and the
-- API server's answers as parameters (Env), and the actions of a controller (Sync, Listers).
pub mod Json
pub mod Effects
pub mod Env
pub mod Sync
pub mod Listers
pub mod Stores
pub mod Monad
pub mod Safety
pub mod Guarded
