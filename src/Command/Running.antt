-- ===== src/Command/Running.antt =====
-- The two gRPC services as their commands run them.
use openmeeting_server.Base.{List, ◌≡◌, ◌≢◌}
use openmeeting_server.Base.Int.{ℤ}
use openmeeting_server.Startup.{exited}
use openmeeting_server.Startup.Platform.{Platform, Event, open_resources}
use openmeeting_server.Services.{MeetingConfig, UserConfig, start_meeting, start_user}
use openmeeting_server.Services.Starting.{start_meeting-IsQuiet, start_user-IsQuiet}
use openmeeting_server.RpcServer.Resources.{start-IsBalanced}
use openmeeting_server.Startup.Registering.{One}
use openmeeting_server.RpcServer.Registering.{IsAnnounced, start-registers}
use openmeeting_server.Command.{run_meeting_rpc, run_user_rpc}

module _ (plat : Platform) (meeting : MeetingConfig) (user : UserConfig) (index : ℤ)
    (h : List Event) where
  -- However the meeting service and the user service end, by an error, by the signal or by a
  -- panic, the listener and the client of the discovery service are given back, if neither process
  -- exits at once, as it does without a connection to the other service.
  pub run_rpc-gives_back :
      (run_meeting_rpc plat meeting index h).0 ≢ exited
      → (run_user_rpc plat user index h).0 ≢ exited
      → (open_resources (run_meeting_rpc plat meeting index h).1 ≡ open_resources h)
        × (open_resources (run_user_rpc plat user index h).1 ≡ open_resources h)
  unfolding run_meeting_rpc run_user_rpc
  run_rpc-gives_back meeting_stays user_stays = (
    (start-IsBalanced plat meeting.discovery meeting.rpc.prometheus meeting.rpc.rpc.listen_ip
          meeting.rpc.rpc.register_ip meeting.rpc.rpc.ports index
          meeting.share.rpc_register_name.meeting (start_meeting plat meeting)
          (start_meeting-IsQuiet plat meeting).balanced).at
        h meeting_stays,
    (start-IsBalanced plat user.discovery user.rpc.prometheus user.rpc.rpc.listen_ip
          user.rpc.rpc.register_ip user.rpc.rpc.ports index user.share.rpc_register_name.user
          (start_user plat user) (start_user-IsQuiet plat user).balanced).at
        h user_stays,
  )

  -- Each of the two services registers at most once: under its name, with the address that it
  -- registers and with the port of its index, which its listener has too, while the listener and
  -- the client of the discovery service are open.
  pub run_rpc-registers :
      One
        (IsAnnounced plat meeting.share.rpc_register_name.meeting meeting.rpc.rpc.listen_ip
          meeting.rpc.rpc.register_ip meeting.rpc.rpc.ports index
          (open_resources h))
        h
        (run_meeting_rpc plat meeting index h).1
      × One
          (IsAnnounced plat user.share.rpc_register_name.user user.rpc.rpc.listen_ip
            user.rpc.rpc.register_ip user.rpc.rpc.ports index
            (open_resources h))
          h
          (run_user_rpc plat user index h).1
  unfolding run_meeting_rpc run_user_rpc
  run_rpc-registers = (
    start-registers plat meeting.discovery meeting.rpc.prometheus meeting.rpc.rpc.listen_ip
        meeting.rpc.rpc.register_ip meeting.rpc.rpc.ports index
        meeting.share.rpc_register_name.meeting (start_meeting plat meeting)
        (start_meeting-IsQuiet plat meeting).balanced (start_meeting-IsQuiet plat meeting).silent h,
    start-registers plat user.discovery user.rpc.prometheus user.rpc.rpc.listen_ip
        user.rpc.rpc.register_ip user.rpc.rpc.ports index user.share.rpc_register_name.user
        (start_user plat user) (start_user-IsQuiet plat user).balanced
        (start_user-IsQuiet plat user).silent h,
  )
