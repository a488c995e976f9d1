-- ===== src/Protostream.antt =====
-- internal/protostream: the protobuf encoding of wrapped values and of queries, written and read by hand.
pub mod Wire
pub mod Wrapped
pub mod Query
pub mod Tests
