-- ===== src/Batch.antt =====
-- simcrs/batches/simcrs.cpp: the batch program.
pub mod Options
pub mod Configuration
pub mod Assignment
pub mod Reading
pub mod Precedence
pub mod Run
pub mod Safety
pub mod Faults
pub mod Ending
pub mod Booked
pub mod Sold
pub mod Sells
pub mod Searched
pub mod Returned
pub mod Declined
pub mod Status
pub mod Whole
pub mod Rejected
pub mod Vectors
