-- ===== src/Http.antt =====
-- client/http.py.
pub mod Value
pub mod SuperLen
pub mod Base64
pub mod Server
pub mod Url
pub mod Client
pub mod Request
pub mod Payload
pub mod Responses
pub mod Methods
