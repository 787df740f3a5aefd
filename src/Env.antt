-- ===== src/Env.antt =====
-- What the program calls and does not implement, and the monad in which it calls it. Every call that
-- leaves the process is recorded; its answer is any function of the calls made before it, so a
-- statement for every `Env` holds whatever the services answer, and whatever other processes do
-- between two calls.
mod Calls
mod Monad
mod Answers
pub use Calls.*
unfoldable pub use Monad.*
pub use Answers.*
