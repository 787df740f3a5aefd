-- ===== src/Lib.antt =====
-- The meeting server: rooms on a LiveKit server, meetings and users in MongoDB behind a cache in Redis,
-- the remote procedures by which clients book, join, run and end meetings, and the accounts and tokens
-- by which they are let in.
--
-- Parts, and the files that model them:
--   * internal/rpc/meeting/meeting.go, the handlers: Meeting/Booking (BookMeeting and
--     CreateImmediateMeeting), Meeting/Joining (JoinMeeting, GetMeetingToken, LeaveMeeting),
--     Meeting/Ending, Meeting/Reading (GetMeetings, GetMeeting), Meeting/Updating, Meeting/Personal (the
--     two handlers of personal settings), Meeting/Hosting (nicknames, removal, hosts), Meeting/Streams
--     (OperateRoomAllStream and CleanPreviousMeetings); the requests are in Meeting/Requests.
--   * internal/rpc/meeting/logic.go: Meeting/Schedule (the next time of a meeting, whether it takes
--     place today, the refresh of its status), Meeting/Personal and Meeting/Streams.
--   * internal/rpc/meeting/convert.go: Meeting/Convert and its children; permission.go and
--     notification.go: Meeting/Permission and Meeting/Notification.
--   * pkg/rtc/livekit/livekit.go and callback.go: LiveKit and Callback. pkg/rtc/callback.go:
--     Callback/Room.
--   * pkg/common/storage, as far as it stores meetings: Storage, with the keys, the cache, the ids and
--     the keys to delete in its children; the record is in Model.
--   * internal/rpc/user/user.go: UserService, whose login and logout call the meeting service (Rpc is
--     the call of another service). Its storage, the users of pkg/common/storage: UserStorage.
--     Sessions says what Redis holds of the token of a user after any sequence of calls: Keeps, Frame
--     and Registering are about actions that change no session, Effects and Handlers about what a
--     success of each call and procedure does to the sessions, Parsing about ParseToken, Steps about
--     sequences of procedures, and Access about who is let in.
--   * pkg/common/token/token.go: Token. pkg/common/securetools: SecureTools.
--   * internal/api/mw/mw.go: Middleware, with a login and a request after it in Middleware/Login.
--   * internal/api/router.go with the handlers of user.go and meeting.go: Router and Router/Handlers;
--     Router/Guarded is about requests whose token is not accepted, Router/Served about those answered.
--   * internal/api/admin/admin.go: Admin; its children are about the accounts and the session it makes,
--     and Admin/Routes has the routes of admin/router.go.
--   * pkg/common/config: Config (what is configured). pkg/common/cmd with config/load_config.go: Command
--     (what a process reads before it runs) and Command/Prefix (the names of environment variables).
--   * The starts: pkg/common/startrpc with pkg/common/discoveryregister is RpcServer, whose children are
--     about the resources that it opens, the registration and the end; internal/rpc/meeting/init.go and
--     the start of internal/rpc/user are Services; internal/api/init.go and admin/init.go are ApiServer.
--     All are written in the monad of Startup.
--   * tools/check-component/main.go: ComponentCheck.
--   * pkg/common/xlsx: Xlsx (the names of columns) with Xlsx/Strconv and Xlsx/Cells.
--   * pkg/common/servererrs/relation.go: ErrorRelation.
--   * pkg/rpcclient/user.go and pkg/user/meeting.go: UserRpc. pkg/common/constant, servererrs/code.go
--     and cachekey: Constants and Storage/Key.
--   * The generated messages are the records of Wire, with the fields that the program uses.
-- ReadOnly, Yields and Ensures hold the rules by which actions are reasoned about, a child module is
-- named for what it proves of its parent, and Tests holds runs at a concrete environment.
-- A function keeps its name, in lower case with underscores; ID, DB and 4 stay as words of the name.
--
-- Actions. An action takes a process, which is the calls made so far and the counter of the LiveKit
-- client, and gives a result or an error with the process after it (Env/Monad). Each call that leaves
-- the program is recorded with its arguments, and `Env` (Env/Answers) answers it by a function of the
-- calls before it. A statement about every `Env` so covers every behaviour of LiveKit, MongoDB, Redis,
-- the user service and the clock, failures and the work of other processes included. `writes` keeps of
-- the recorded calls those that change something. Fields of `Env` also stand for pure functions of
-- other packages: the JSON and protobuf codecs, the time zone database, `datautil.Single`, the
-- functions of timeutil on a time zone, and the transaction of the database client, which is assumed to
-- run its function once where a theorem says so (Storage/Invalidation, `RunsOnce`). Go's unspecified
-- order of a range over a map is one more field. Records of hypotheses say what a theorem relies on of
-- them: `Faithful` (Sessions), that a key of Redis which is read has the value written last, which it
-- has while no other process writes the tokens; `Available` (Middleware/Access), that Redis and the
-- transport answer, and that Redis keeps a key until it expires, by a clock of its own that is any
-- function of the calls; `Verifies` (Token/RoundTrip), that the JWT library reads back what it signed
-- and checks its times; `DetectsDuplicates` (UserService/Registration), that `datautil.DuplicateAny`
-- reports two equal keys. The call that sets a key says in how many seconds it expires, twelve hours for
-- a session, and a key that has expired is one that is not there. A token of a login is signed with the
-- claims of Token, and the MD5 sum is any function of a text.
--
-- Starts. The start of a process has a monad of its own (Startup): it runs on the steps so far, the latest
-- first, and ends with a value, an error, a panic, or the exit of the process, which skips the deferred
-- calls. Startup/Platform has the steps and the record of what answers them: the listener, etcd, the
-- clients of the storage, viper, the loggers. The goroutines of a server are a list of what they do before
-- the process wakes, with what it wakes by; both are any function of the steps before.
--
-- Numbers. Sums of times wrap as int64 do (Base/Int); the counter of the LiveKit client wraps as a
-- uint64. Dates follow the algorithm of Go's time package (Calendar). Errors keep what the program
-- tests for, and not their messages. A nil pointer that the program may follow is `none`, and following
-- it is the error `panic`; the nested messages that the program always fills are plain records. An
-- empty list stands for a nil one.
--
-- Loops with no bound in the source take fuel (Meeting/Schedule/Next): one round for each second
-- between the scheduled time and now, and five more, where a round that advances the time advances it
-- by many hours. A loop that does not end within its fuel is the error `hang`; a custom
-- repetition with an unknown unit or with interval 0 has such a loop.
--
-- The loop of `Num2AZ` takes thirteen rounds of fuel: each divides by 26, and 26 ^ 14 is above 2 ^ 63.
--
-- Not modelled: the Prometheus middleware of ginprometheus, which is a copy of another project, and the
-- counters; the construction of the commands and the main functions, which call what is modelled; the
-- reading of a message from the text of a request and of people from a file, which are parameters of
-- Router and Admin/Routes; build scripts and the tool that looks at the free memory. The values of a
-- configuration are not followed from its files: that a file was read and parsed is a step. The parsing of
-- floats and the lower case of texts are parameters of Xlsx/Cells. The body of `ToggleMimeStream` is
-- commented out in the source, and the callback that `CreateRoom` passes is never registered; both are
-- modelled as they are. `UpdateUserPassword` has an empty body. Logging is left out.
pub mod Base
pub mod Config
pub mod Constants
pub mod Result
pub mod Middleware
pub mod Admin
pub mod Xlsx
pub mod ErrorRelation
pub mod Model
pub mod Wire
pub mod Env
pub mod Decimal
pub mod LiveKit
pub mod UserRpc
pub mod Calendar
pub mod Startup
pub mod RpcServer
pub mod Services
pub mod ApiServer
pub mod Command
pub mod ComponentCheck
pub mod Storage
pub mod ReadOnly
pub mod Yields
pub mod Ensures
pub mod Meeting
pub mod Callback
pub mod Rpc
pub mod UserStorage
pub mod Token
pub mod SecureTools
pub mod UserService
pub mod Sessions
pub mod Router
pub mod Tests
