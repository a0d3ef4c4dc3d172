-- ===== src/Lib.antt =====
-- rail: a file system over RDMA, and a transfer of files over it with rsync's delta algorithm. This
-- development models the program's own logic, and leaves the kernel, io_uring, the verbs and xxHash
-- as parameters.
--
-- How the program is put together. A session (src/session-push.cc, src/session-receive.cc) moves
-- one file: the receiver sums the blocks of what it has (src/app/signature.cc on src/fs/reader.cc),
-- the sender scans its source against the sums (src/app/differ.cc with the checksums of
-- src/app/checksum.cc) and emits instructions, which the receiver applies. Which files travel is
-- the choice of src/app/filter.cc. Everything that is said goes as a message
-- (include/rail/proto/message.h) through the codec (src/proto/codec.cc), in frames
-- (src/proto/control-channel.cc) on a stream (src/io/stream.cc).
--
-- Prelude: Boolean tests, lists over the native numbers, well-founded descent, and `|` on numbers
--   whose bits lie apart.
-- Result: Error and Result of include/rail/result.h. A coroutine that returns a Result is a
--   function that returns one where no modelled operation shares its state while it waits; Memory,
--   Turn and Gate, whose state is shared, have step relations.
-- Proto: the wire. Kind is the enum Type; Bytes, Writer and Reader are codec.h, a Writer a function
--   on the bytes written before and a Reader the bytes not read yet with Ok; Message has the
--   structs and the variant of message.h; Codec has one write_ and one read_ function a message,
--   and encode and decode over them. RoundTrip and Prefix follow Codec's tree: the first has what
--   decodes what was encoded, the second what refuses what was cut short. Typed is about the
--   header's type. Frame is sendClaimed and receive of the control channel, and Frame/Sequence runs
--   of frames.
-- Io/Stream: Stream::read, readExact and both writeAll. How many bytes a read or write of the
--   system moves, or its error, is a function of the bytes at hand. Reading and Writing have the
--   proofs.
-- Io/Turn: Turn of include/rail/io/turn.h with the loop's queue of coroutines to resume; Steps is
--   what coroutines do with it as a step relation, Queues, Kept and Sound have the invariant, Fair
--   the order.
-- Vfs/Gate: Gate of include/rail/vfs/remotes.h, in the same way.
-- Fs/Reader: FileReader::read over pread, whose progress is a parameter of the reader.
-- AddressSpace: claim, release, rebase and at of src/address-space.cc, with Memory a parameter;
--   Mapped has where an offset falls, Claimed what a claim gives.
-- App/Checksum: weakChecksum, rollWeak and weakHash; Rolling has the closed form.
-- App/Signature: the block and strong lengths, blockLengthAt, buildSignature; Sizes has the root,
--   Blocks what is summed.
-- App/Differ: the hash table and lookup; Scan has the window, what is emitted and the loop of diff,
--   on a sink with a state of its own. Rebuild is the receiver's applyLiteral and applyCopy; Found,
--   Windows, Emitting, Rolled, Rounds, Whole, Last and Ending have the proofs, and Delta joins them
--   to App/Signature/Blocks.
-- App/Filter: globMatch, the rules and allows. Patterns says what a pattern means, apart from the
--   code; Classes, Follows, Glob and Rules have the proofs.
-- Memory: the frame allocator of src/memory.cc. Frames, Taking and Owned say which frames a run
--   holds, Steps has the critical sections of the lock as a step relation, Sound what they keep,
--   and Alloc that alloc is made of them.
-- Pages: the page streams of src/stream/page-stream.cc, with StreamGeometry. Sender and Receiver
--   have the two ends, on parameters for the source, the sink, the pool and the channel; Cutting is
--   how a range is cut; Filling, Sent, Posted and Agreed have the proofs, Geometry the bounds of
--   forChannel.
-- FdCache: the cache of descriptors of src/file-service.cc; Bounded and Runs have the invariant,
--   Current what get gives.
-- Fuse/Inodes: the inode table of src/fuse/inodes.cc. Names, Counting, Table, Kept and Moved have
--   what the operations keep, and Runs all calls from the empty table on.
-- Nfs/Xdr: XdrWriter, XdrReader and XdrPayload of src/nfs/xdr.cc and include/rail/nfs/xdr.h;
--   RoundTrip has the proofs.
-- Nfs/Rpc: receiveRecord, sendRecord, and the calls and replies of src/nfs/rpc.cc. Records has what
--   fragments make, Sending what is sent, Messages what sender and receiver make of each other.
-- Tests: runs of the definitions, and the theorems at concrete inputs.
--
-- Machine integers are numbers with the wrap-around written out where the code can meet it. A byte
-- is a number below 256, and where that matters it is a hypothesis.
--
-- Fuel. Stream loops, the RPC record's and the reader have a round a byte, since a round that ends
-- no loop moves one. first_bit has 31 rounds, refine 32, add_bits 64 and drop_bits 32: a shifted
-- integer is gone by then. emit_literal has a round a byte. scan has two rounds a byte of the
-- source and two more: a round advances the offset, or fills the window so that the round behind it
-- does. The page streams have one a byte of the range, since a page has a byte, and one more. climb
-- is given a number of inodes to climb and says where it is too small. glob has a round a char of
-- the pattern, matches_anywhere one a slash. A loop that has no round left is an error or false,
-- and the theorems on results say that this is not met.
--
-- Not modelled: system calls and libraries (sockets, RDMA, io_uring, libfuse, xxHash), the kernel
-- module in src/linux, the tools' start-up, the session's ordering of control messages, the rest
-- of the file service, the FUSE mount, NFS beyond its RPC messages, the page pool, the bytes and
-- digests of page streams, and their sources and sinks. A window's read beyond its buffer, which
-- C++ leaves undefined, is a shorter list here; the theorem on diff keeps to signatures for which
-- it does not happen.
pub mod Prelude
pub mod Result
pub mod Proto
pub mod Io
pub mod FdCache
pub mod Fs
pub mod AddressSpace
pub mod Memory
pub mod App
pub mod Fuse
pub mod Nfs
pub mod Pages
pub mod Vfs
mod Tests
