-- ===== src/Classfile.antt =====
-- The package classfile: the byte cursor and sink, the constant pool under construction and as it is
-- read, method bodies, the builder of a class, versions, and the attributes and the decoder of a
-- class file.
pub mod Wire
pub mod Pool
pub mod Code
pub mod Version
pub mod ConstPool
pub mod Builder
pub mod Attr
pub mod Decoder
