-- ===== src/Jvm.antt =====
-- The packages under jvm: modified UTF-8, descriptors and opcodes.
pub mod Mutf8
pub mod Desc
pub mod Op
