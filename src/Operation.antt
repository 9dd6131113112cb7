-- ===== src/Operation.antt =====
-- lib/transport/binary/protocol33/operation.js: the base class of the operations. Write has the
-- steps that lay out a request, the other modules the steps that read its answer.
pub mod Write
pub mod Heap
pub mod Machine
pub mod Callbacks
pub mod Parse
pub mod Consume
pub mod Reads
pub mod Resume
pub mod Loop
pub mod Offsets
pub mod Chunks
pub mod RoundTrip
