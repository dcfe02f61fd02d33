-- ===== src/Auth.antt =====
-- Authentication: src/server/auth/oauth/OAuthStore.ts and src/mcp/McpApiKeyStore.ts.
pub mod OauthStore
pub mod Tokens
pub mod Sessions
pub mod LinkCodes
mod Tests
pub mod ApiKeys
