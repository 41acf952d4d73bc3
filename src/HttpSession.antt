-- ===== src/HttpSession.antt =====
-- Services/GateServer/http_session.{h,cpp}.
pub mod RateLimit
pub mod Token
pub mod Request
pub mod Handlers
pub mod Lifecycle
pub mod Answers
pub mod Login
pub mod End
pub mod PostData
mod Tests
mod ServerTests
