-- ===== src/Domain.antt =====
-- app/internal/domain/domain.go: the data types, one child for each of its groups.
-- An id (uuid.UUID) is a number, 0 for uuid.Nil; an instant is a number of nanoseconds; a pointer
-- is an Option. A text that is only stored and compared is a String, one that the program walks is
-- a list of bytes.
mod Users
mod Sessions
mod Links
mod Guests
mod Logs
pub use Users.*
pub use Sessions.*
pub use Links.*
pub use Guests.*
pub use Logs.*
