-- ===== src/Llm.antt =====
-- internal/llm: the recognition of language models' interfaces, and the tables keyed by a model's
-- name.
pub mod Endpoints
pub mod Lookup
