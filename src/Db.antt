-- ===== src/Db.antt =====
-- The key-value store that a replica executes commands on: include/hotstuff/HashNode.h, HashBucket.h
-- and HashMap.h (a hash table with a linked list for each bucket), and in_memory_db.cpp. Strings are
-- opaque: each is the number that its bytes spell. An operation holds its bucket's lock from its
-- first line to its last, so operations on one bucket follow one another.
pub mod Bucket
pub mod HashMap
pub mod Memory
