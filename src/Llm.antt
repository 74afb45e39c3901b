-- ===== src/Llm.antt =====
-- internal/llm: the providers of model answers.
pub mod OpenAi
mod Tests
