-- ===== src/Access.antt =====
-- Who may do what: packages/services/authorization.service.ts and tool-grant.service.ts.
pub mod Conversation
pub mod Suggestion
pub mod Rules
pub mod GrantStore
pub mod Granted
pub mod GrantReads
pub mod GrantRuns
pub mod GrantLaws
pub mod GrantView
pub mod Grants
mod Examples
