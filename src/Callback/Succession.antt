-- ===== src/Callback/Succession.antt =====
-- Who is host after `OnRoomParticipantDisconnected` of pkg/rtc/livekit/callback.go.
use openmeeting_server.Base.{
  String, List, ◌∷◌, ◌≡◌, ◌≢◌, refl, sym, ap, ◌∙◌, ◌⊎◌, inl, inr, Bool-cases, true, false, not,
  ◌&&◌, ◌==◌, eq_iff, differs_iff, and_true,
}
use openmeeting_server.Wire.{MeetingMetadata}
use openmeeting_server.Result.{Result, ok, Err, err, Result-cases}
use openmeeting_server.Env
use openmeeting_server.Env.{Env, Call, Process, writes}
use openmeeting_server.LiveKit.{get_room_data, remove_participant, update_meta_data}
use openmeeting_server.Meeting.Convert.{get_host_user_id, get_creator_user_id}
use openmeeting_server.Meeting.Hosting.{with_host}
use openmeeting_server.ReadOnly.Services.{get_room_data-ReadsOnly}
use openmeeting_server.Callback.{on_room_participant_disconnected, succeed_host}

-- The metadata with another host, and all else as it is
abbrev pub hosted_by : String → MeetingMetadata → MeetingMetadata
hosted_by host meta_data = record {
  detail = record {
    info = record {
      system_generated = meta_data.detail.info.system_generated;
      creator_defined_meeting = record {
        title = meta_data.detail.info.creator_defined_meeting.title;
        scheduled_time = meta_data.detail.info.creator_defined_meeting.scheduled_time;
        meeting_duration = meta_data.detail.info.creator_defined_meeting.meeting_duration;
        password = meta_data.detail.info.creator_defined_meeting.password;
        time_zone = meta_data.detail.info.creator_defined_meeting.time_zone;
        host_user_id = host;
        co_host_user_id = meta_data.detail.info.creator_defined_meeting.co_host_user_id;
      };
    };
    setting = meta_data.detail.setting;
    repeat_info = meta_data.detail.repeat_info;
  };
  personal_data = meta_data.personal_data;
}

module _ (env : Env) (room_id user_id : String) where
  -- The process once the participant is removed
  abbrev removed : Process → Process
  removed p = record p { calls = Env.remove_participant room_id user_id ∷ p.calls }

  -- The host who leaves did not create the room, and the metadata with the creator as host is a text.
  abbrev pub Succeeds : Result MeetingMetadata → MeetingMetadata → String → Type 0
  Succeeds read meta_data bytes =
      (read ≡ ok meta_data)
      × (get_host_user_id meta_data ≡ user_id)
      × (get_creator_user_id meta_data ≢ user_id)
      × (env.marshal_metadata (hosted_by (get_creator_user_id meta_data) meta_data) ≡ ok bytes)

  abbrev pub Outcome : Result MeetingMetadata → List Call → List Call → Type 0
  Outcome read before after =
      ((after ≡ before)
        × ((meta_data : MeetingMetadata) (bytes : String) → ¬ Succeeds read meta_data bytes))
      ⊎ ((meta_data : MeetingMetadata) × (bytes : String) × Succeeds read meta_data bytes
          × (after
              ≡ Env.update_room_metadata meta_data.detail.info.system_generated.meeting_id bytes
                ∷ before))

  hosted_by_lem :
      (host : String) (meta_data : MeetingMetadata)
      → with_host host meta_data ≡ hosted_by host meta_data
  unfolding with_host
  hosted_by_lem host meta_data = refl

  not_marshalled :
      (m m' : MeetingMetadata) (b : String) (e : Err)
      → Succeeds (ok m) m' b
      → ¬ (env.marshal_metadata (with_host (get_creator_user_id m) m) ≡ err e)
  not_marshalled m m' b e (read, host, creator, marshalled) h =
      let same : m ≡ m' = cc read in
      absurd (cc (marshalled, rw same at h, hosted_by_lem (get_creator_user_id m') m'))

  no_succession :
      (m m' : MeetingMetadata) (b : String)
      → Succeeds (ok m) m' b
      → ¬ (
          (get_host_user_id m == user_id && not (get_creator_user_id m == get_host_user_id m))
          ≡ false)
  no_succession m m' b (read, host, creator, marshalled) refused =
      let same : m ≡ m' = cc read in
      let here = rw same at refused in
      let left : get_host_user_id m' == user_id ≡ true = (eq_iff _ _).1 host in
      let apart : not (get_creator_user_id m' == get_host_user_id m') ≡ true =
        (differs_iff _ _).1 (λ e. creator (e ∙ host)) in
      absurd (cc (rw (left, apart) at here))

  succeed_host-Outcome :
      (read : Result MeetingMetadata) (q : Process)
      → Outcome read (writes q.calls) (writes (succeed_host env user_id read q).1.calls)
  unfolding succeed_host update_meta_data writes
  succeed_host-Outcome (err e) q = inl (refl, λ m b s. absurd (cc s.0))
  succeed_host-Outcome (ok m) q =
      let creator = get_creator_user_id m in
      let new = with_host creator m in
      elim (Bool-cases (get_host_user_id m == user_id && not (creator == get_host_user_id m))) [
        | inl leaving ↦
            let (host, other) = and_true _ _ leaving in
            let leaves : get_host_user_id m ≡ user_id = (eq_iff _ _).0 host in
            let differs : creator ≢ user_id =
              λ e. (differs_iff creator (get_host_user_id m)).0 other (e ∙ sym leaves) in
            elim (Result-cases (env.marshal_metadata new)) [
              | inl (bytes, h) ↦ inr (
                m,
                bytes,
                (
                  refl,
                  leaves,
                  differs,
                  ap env.marshal_metadata (sym (hosted_by_lem creator m)) ∙ h,
                ),
                rw (leaving, h) refl,
              )
              | inr (e, h) ↦ inl (rw (leaving, h) refl, λ m' b s. not_marshalled m m' b e s h)
            ]
        | inr stays ↦ inl (rw stays refl, λ m' b s. no_succession m m' b s stays)
      ]

  -- When a participant leaves a room, the participant is removed, and either nothing else is
  -- changed, or the metadata of the room was read, its host is the one who left, not the creator,
  -- and the metadata with the creator as host and all else as it was is written; the second is the
  -- case whenever the metadata is read so and can be written as text, whether the removal succeeded
  -- or not.
  pub on_room_participant_disconnected-Outcome :
      (p : Process)
      → Outcome
          (get_room_data env room_id (removed p)).0
          (Env.remove_participant room_id user_id ∷ writes p.calls)
          (writes (on_room_participant_disconnected env room_id user_id p).1.calls)
  unfolding on_room_participant_disconnected remove_participant writes
  on_room_participant_disconnected-Outcome p =
      rw ((get_room_data-ReadsOnly env room_id).at (removed p)) at (
        succeed_host-Outcome (get_room_data env room_id (removed p)).0
          (get_room_data env room_id (removed p)).1)
