-- ===== src/Api.antt =====
-- app/internal/transport/http: the owners' API under /api/v1. encoding/json, uuid.Parse and chi are
-- not modelled: a request comes with its decoded body, which is none where it cannot be decoded,
-- with its parsed ids, and as a value of the type that the router chooses its handler by.
pub mod Reply
pub mod Users
pub mod Links
pub mod Sessions
pub mod Rules
pub mod Sites
pub mod Middleware
pub mod Router
mod Tests
