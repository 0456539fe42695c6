-- ===== src/Util.antt =====
-- The functions of src/util.cc.
pub mod Base64
pub mod Sha1
pub mod Padding
pub mod Rounds
pub mod AcceptKey
pub mod Files
mod Tests
