-- ===== src/Cookies.antt =====
-- src/cookies: cookies, the jar that keeps them, and the interceptor that applies a jar.
pub mod Syntax
pub mod Cookie
pub mod Matching
pub mod Jar
pub mod Interceptor
pub mod Examples
