-- ===== src/ModelEffect.antt =====
-- Durable intents for calls of a model provider: the records, their store and the authority that
-- makes the call (backend/agency_runtime/model_effect_store.py and model_effect.py).
pub mod Intent
pub mod Store
pub mod Authority
