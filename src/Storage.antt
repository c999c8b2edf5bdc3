-- ===== src/Storage.antt =====
-- internal/storage/log.go: the append-only file of one partition.
-- `Bytes`: the little-endian integers of encoding/binary; `Crc`: the checksum of hash/crc32;
-- `Codec`: the format of a record; `Log`: the open file and its index.
pub mod Bytes
pub mod Crc
pub mod Codec
pub mod Log
pub mod Tests
