-- ===== src/Proxy.antt =====
-- caching_http_proxy/proxy/proxy.[ch]: what is done with the request of a client.
pub mod Text
pub mod Headers
pub mod Connect
pub mod Send
pub mod Cached
pub mod Session
pub mod Relay
pub mod Request
pub mod Process
pub mod Server
mod Tests
