-- ===== src/Factory.antt =====
-- simcrs/factory: the factories, each of which owns the objects that it makes, and the supervisor,
-- with which they register.
pub mod Service
pub mod Bom
pub mod Identity
pub mod Supervisor
pub mod ServiceContext
pub mod Sound
pub mod Pool
pub mod Layer
pub mod Registration
pub mod Making
pub mod Promise
pub mod Cleaning
pub mod Sweep
