-- ===== src/Queue.antt =====
-- internal/queue: what travels through Redis.
pub mod Event
pub mod Consumer
