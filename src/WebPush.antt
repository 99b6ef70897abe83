-- ===== src/WebPush.antt =====
-- backend/internal/webpush: the subscriptions of browsers and the server's key pair.
pub mod Store
pub mod Keys
mod Tests
