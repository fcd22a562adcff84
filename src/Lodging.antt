-- ===== src/Lodging.antt =====
-- internal/app/steps/lodging_step/run_lodging.go: the guest lives through the stay over a chat.
pub mod Plan
pub mod Chat
pub mod Enter
pub mod Gate
pub mod Stay
pub mod Replies
pub mod Acts
pub mod Follows
pub mod Checkin
