-- ===== src/Store.antt =====
-- What the services act on: the Postgres tables of migrations/, Redis, the clock, the entropy of
-- crypto/rand and the event hub, with a script that says how each call to Postgres and Redis ends.
-- A service method is an action on it: what was written before an error stays written.
pub mod Db
pub mod App
pub mod Keeps
pub mod Reads
pub mod Ensures
pub mod Redis
pub mod Sample
