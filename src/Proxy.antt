-- ===== src/Proxy.antt =====
-- proxy/proxy.c: requests, the traffic between client, cache and origin.
pub mod Search
pub mod Send
pub mod Request
pub mod Stream
pub mod Handler
pub mod Delivery
pub mod Server
pub mod Together
