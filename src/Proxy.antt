-- ===== src/Proxy.antt =====
-- app/internal/proxy: the data plane, a child for each of its files.
pub mod Path
pub mod Header
pub mod Handler
pub mod Serve
mod Tests
