-- ===== src/Collection.antt =====
-- inc/ewa_base/collection: the sizes of tables, the hash table and its chunks, the ring, the trees and the list.
pub mod Capacity
pub mod Chunk
pub mod Indexer
pub mod Ring
pub mod Avl
pub mod Bst
pub mod IntrusiveList
