-- ===== src/External.antt =====
-- Code that the program calls and that is not part of the repository, as records of operations
-- and of the documented behaviour that the program relies on.
pub mod Lo
pub mod Host
pub mod Texts
pub mod Etcd
