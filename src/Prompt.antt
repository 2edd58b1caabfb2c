-- ===== src/Prompt.antt =====
-- The prompt and its line editor (src/prompt.c), built without WCHAR_SUPPORT and with HAVE_DIRENT_H.
pub mod Editor
pub mod Completion
pub mod Loop
pub mod View
pub mod Keys
pub mod Typing
pub mod Ends
pub mod Progress
pub mod Words
pub mod Fills
pub mod Completing
pub mod Show
mod Tests
