-- ===== src/Serializer.antt =====
-- utils/serializer.h: the wrappers that write a value to a stream and read it back. A template
-- over the element type is a function of the element's wrapper.
pub mod Streams
pub mod Containers
pub mod Codec
pub mod Trivial
pub mod Pairs
pub mod Sequences
pub mod Wrapped
pub mod Strings
pub mod Progress
