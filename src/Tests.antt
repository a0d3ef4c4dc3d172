-- ===== src/Tests.antt =====
-- Runs of the definitions on concrete inputs, and the theorems at concrete inputs.
mod Wire
mod Delta
mod Filtering
mod Xdr
mod Space
mod Frames
mod Tree
mod Calls
mod Turns
mod Streams
mod Descriptors
