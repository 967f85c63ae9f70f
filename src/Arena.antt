-- ===== src/Arena.antt =====
-- internal/arena: the two lanes, the stores behind them and the gateway before them.
pub mod Client
pub mod Models
pub mod Mongo
pub mod Interfaces
pub mod Lawful
pub mod Lanes
pub mod Profiles
pub mod Gateway
pub mod Scenario
pub mod Routes
pub mod Runner
pub mod Summary
pub mod Events
