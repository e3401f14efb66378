-- ===== src/Lender.antt =====
-- agents/lenders/src: the agent that lends, with its store, the funding of an accepted offer, and the
-- handlers of its server.
pub mod Store
pub mod Fund
pub mod Server
