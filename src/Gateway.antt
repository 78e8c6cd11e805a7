-- ===== src/Gateway.antt =====
-- sdks/typescript/src/gateway/: the rate limiter, the router with
-- its support of legacy clients, and the frames of gRPC-Web.
pub mod RateLimiter
pub mod Compat
pub mod Router
pub mod GrpcWeb
