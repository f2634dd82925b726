-- ===== src/Commands.antt =====
-- The programs under cmd: user-service, logger-service and gateway.
pub mod Listen
pub mod Addresses
pub mod Usable
pub mod Process
pub mod Files
pub mod Triples
pub mod Keys
pub mod VaultConfig
pub mod UserService
pub mod Written
pub mod Started
pub mod Cleanup
pub mod Ends
pub mod LoggerService
pub mod LoggerEnds
pub mod GatewaySettings
pub mod Brokers
pub mod RedisCache
pub mod Example
mod Tests
