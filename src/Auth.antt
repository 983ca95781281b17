-- ===== src/Auth.antt =====
-- nmoscommon/auth: validation of access tokens, the cache of the authorization server's key, and
-- the middleware and the decorator that let a request pass. The token library, the network and the
-- clock are parameters.
pub mod Exn
pub mod Paths
pub mod Claims
pub mod Token
pub mod Keys
pub mod Middleware
pub mod Permits
pub mod Passes
pub mod Cached
pub mod Newest
pub mod Latest
pub mod Decorator
pub mod Decorated
pub mod Fallback
