-- ===== src/OAuth.antt =====
-- portal/oauth.py: the authorization server for the /mcp connector.
pub mod Tokens
pub mod Pending
pub mod Consent
