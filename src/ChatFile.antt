-- ===== src/ChatFile.antt =====
-- src/nbs-chat/chat_file.c: the chat file protocol. A chat file is its bytes: a header with the length
-- of the file and the participants, then one Base64 line for each message.
pub mod Length
pub mod Number
pub mod Participants
pub mod Message
pub mod Lines
pub mod File
pub mod Log
pub mod Cursors
pub mod Archive
pub mod Truncate
