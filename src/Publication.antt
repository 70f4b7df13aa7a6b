-- ===== src/Publication.antt =====
-- Durable intents for publications on a social channel: the records and their store
-- (backend/agency_runtime/social_publication_store.py).
pub mod Intent
pub mod Store
