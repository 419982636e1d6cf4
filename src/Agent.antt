-- ===== src/Agent.antt =====
-- app/agent: the agent's graph (`Graph`), the guardrails (`Guardrails`) and the choice of a tool
-- (`Llm`).
pub mod Graph
pub mod Guardrails
pub mod Llm
