-- ===== src/Agent.antt =====
-- internal/agent: the bounded investigation loop. Everything outside the package (the model, the
-- tools, the search index, the clock, the callback that records a step, the JSON decoder) is a
-- field of `Env`.
pub mod Types
pub mod Env
pub mod Context
pub mod Evidence
pub mod Tools
pub mod Knowledge
pub mod State
pub mod Endings
pub mod Steps
pub mod Loop
