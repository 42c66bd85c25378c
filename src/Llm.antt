-- ===== src/Llm.antt =====
-- src/repoauditor/llm/client.py: the wrapper that every call of a model passes through.
pub mod Client
pub mod Ceilings
