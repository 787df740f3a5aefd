-- ===== src/Meeting/Schedule.antt =====
-- The times of a meeting: `nextMeetingTimestamp`, `IsTodayNeedMeeting` and the status refresh of
-- internal/rpc/meeting/logic.go.
pub mod Next
pub mod Today
pub mod Refresh
