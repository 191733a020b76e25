-- ===== src/Messages.antt =====
-- Messages.h and Messages.cpp: the messages of the protocol, one child for each class.
-- `Print` and `print` write to std::cout for debugging and are not modelled.
pub mod Order
pub mod Laptop
pub mod Record
pub mod Replication
pub mod Transaction
pub mod Codec
