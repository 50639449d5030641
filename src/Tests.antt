-- ===== src/Tests.antt =====
-- Concrete runs: each theorem that has hypotheses, at values that meet them.
mod Samples
mod Machine
mod Ids
mod Trees
mod Routes
mod Files
mod Handlers
mod Folders
mod Answers
mod Connections
mod Parsers
mod Responses
