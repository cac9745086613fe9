-- ===== src/Rules.antt =====
-- rules/engine.go and rules/match.go: the rule engine.
pub mod Match
pub mod Engine
