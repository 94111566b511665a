-- ===== src/Examples.antt =====
-- Each theorem at one concrete input.
pub mod Wire
pub mod Requests
pub mod Jobs
pub mod Connection
pub mod Room
pub mod RoomJobs
pub mod Sessions
pub mod Client
pub mod Broker
pub mod Servers
pub mod UserChannel
pub mod SessionJobs
pub mod Server
pub mod Logger
pub mod RoomServer
