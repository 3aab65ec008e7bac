-- ===== src/Repo.antt =====
-- app/internal/repository/pgx: one child for each group of tables. A statement is the SQL text of
-- its method read on the lists of rows; the keys that the migrations declare are its constraints.
pub mod Order
pub mod Links
pub mod Policies
pub mod Blacklists
pub mod Guests
pub mod Sessions
pub mod Users
pub mod Logs
