-- ===== src/Domain.antt =====
-- The domain types of src/domain, and the third-party codecs that they use, as parameters.
pub mod Base64
pub mod Chrono
pub mod Record
pub mod ClaimId
pub mod Proof
