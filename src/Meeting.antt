-- ===== src/Meeting.antt =====
-- The meeting service, internal/rpc/meeting. The modules below follow its files; the handlers of
-- meeting.go are grouped by what they do.
pub mod Requests
pub mod Permission
pub mod Convert
pub mod Schedule
pub mod Notification
pub mod Personal
pub mod Booking
pub mod Joining
pub mod Ending
pub mod Reading
pub mod Updating
pub mod Hosting
pub mod Streams
