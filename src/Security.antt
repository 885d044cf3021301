-- ===== src/Security.antt =====
-- paper_live/security: the approval of single live orders, and paper_live/secrets/broker.py, the one
-- way to a credential.
pub mod OrderApproval
pub mod Secrets
mod Tests
