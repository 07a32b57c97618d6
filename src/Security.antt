-- ===== src/Security.antt =====
-- The security pipeline of include/gcad/security and src/security, a module to a file of it.
pub mod Observation
pub mod Reading
pub mod Asn1
pub mod Bignum
pub mod Policy
pub mod PolicyStore
pub mod Telemetry
pub mod X509
pub mod Pkcs7
pub mod TrustAnchors
pub mod PeHash
pub mod LegacyAdapter
pub mod Quarantine
pub mod Correlation
pub mod Pipeline
pub mod Rsa
pub mod Authenticode
