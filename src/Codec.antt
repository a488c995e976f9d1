-- ===== src/Codec.antt =====
-- internal/codec: the wire format of the Hot Rod protocol.
pub mod Constants
pub mod VarInt
pub mod Wire
pub mod TimeUnits
pub mod Header
pub mod Tests
