-- ===== src/Tags.antt =====
-- What the anchor keeps of each tag, and what it reads of a tag's frames and topics: registry.h,
-- registry.cpp, tagstats.h, tagstats.cpp, freshness.cpp, ranging_frame.h and topics.cpp of
-- firmware/anchor/src/core.
pub mod Registry
pub mod Freshness
pub mod Frame
pub mod Topics
