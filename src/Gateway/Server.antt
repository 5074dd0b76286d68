-- ===== src/Gateway/Server.antt =====
-- internal/gateway/server.go: the request path that does not stream, over the chooser, the limiter, the
-- pins and the event stream.
pub mod Answer
pub mod Attempt
pub mod Handler
pub mod Permits
pub mod Metering
pub mod Served
