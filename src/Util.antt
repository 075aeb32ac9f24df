-- ===== src/Util.antt =====
-- include/util.hh and the byte loops of include/util.h: rotations, selections, byte order, and the
-- loop that adds a keystream to a message.
pub mod Rotate
pub mod Endian
pub mod Memory
pub mod Keystream
mod Tests
