-- ===== src/Notification.antt =====
-- internal/notification
pub mod Model
pub mod Sender
pub mod Bridge
pub mod Subscriber
pub mod Forwarding
pub mod EndToEnd
pub mod Once
pub mod Mailed
mod Tests
