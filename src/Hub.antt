-- ===== src/Hub.antt =====
-- The provider-independent purchase hub (api/hub).
pub mod Domain
pub mod Provider
pub mod Errors
pub mod Crypto
pub mod Settings
pub mod InterHub
pub mod Repository
pub mod Program
pub mod Service
pub mod Operator
pub mod World
pub mod Api
