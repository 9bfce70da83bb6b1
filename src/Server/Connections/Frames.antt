-- ===== src/Server/Connections/Frames.antt =====
-- server/server.cxx: the messages that `launch_sub_task` and `stop` put together from frames. A message
-- ends with the frame that is sent without ZMQ_SNDMORE; the ROUTER socket takes the first frame for
-- the identity of the receiver.
use fugaku_particle_filter.Prelude.{
  or_fail-inv, ok_inj, sym, ltb, ◌<◌, ℕ, ◌≡◌, refl, List, [], ◌∷◌, ◌++◌, Option, none, some, Bool,
  true, false, not, ◌&&◌, arith, if◌then◌else◌, get_elem?, ok, or_fail, >>=-eq-ok, out_of_range,
  append_assoc,
}
use fugaku_particle_filter.Prelude.Int.{ℤ, pos}
use fugaku_particle_filter.Containers.{slice}
use fugaku_particle_filter.Part.{Part}
use fugaku_particle_filter.Field.{EnsembleMember, get_part, get_part_hidden}
use fugaku_particle_filter.Server.{
  Config, Server, Runner, Sent, frame, Content, identity, empty, header, values, DataMessageType,
  change_state,
}
use fugaku_particle_filter.Server.Connections.{
  launch_sub_task, state_frames, hidden_values, stop_frames, runner_stop_frames, stop_all,
}

-- The messages on the data socket; `begun` are the frames of one that has begun.
unfoldable pub messages : List Content → List Sent → List (List Content)
messages begun [] = []
messages begun (frame f ∷ sent) =
    if f.more
    then messages (begun ++ (f.content ∷ [])) sent
    else (begun ++ (f.content ∷ [])) ∷ messages [] sent
messages begun (_ ∷ sent) = messages begun sent

-- Whether a message has a receiver, an empty delimiter and a header.
unfoldable pub is_addressed : List Content → Bool
is_addressed (identity _ ∷ (empty ∷ (header _ _ _ _ ∷ _))) = true
is_addressed _ = false

unfoldable pub none_addressed : List (List Content) → Bool
unfolding is_addressed
none_addressed [] = true
none_addressed (m ∷ ms) = not (is_addressed m) && none_addressed ms

abbrev pub hidden_contents : Option (List ℕ) → List Content
hidden_contents none = []
hidden_contents (some v) = values v ∷ []

-- What `launch_sub_task` has sent: the part of the member's analysis state that belongs to the runner
-- rank, and the part of its hidden state if there is one.
pub record Launched (c : Config) (id : List ℕ) (runner_rank state_id : ℕ) (s s' : Server)
    : Type 0 where
  pub part : Part
  pub hidden_part : Part
  pub member : EnsembleMember
  pub data_msg : List ℕ
  pub data_msg_hidden : Option (List ℕ)
  pub frames : List Sent
  pub part_of : get_part c.comm_rank s.field runner_rank ≡ ok part
  pub hidden_part_of : get_part_hidden c.comm_rank s.field runner_rank ≡ ok hidden_part
  pub member_of : get_elem? s.field.ensemble_members state_id ≡ some member
  pub data_of : slice part.local_offset_server part.send_count member.state_analysis ≡ some data_msg
  pub hidden_of : hidden_values hidden_part member.state_hidden ≡ ok data_msg_hidden
  pub hidden_none : hidden_part.send_count ≡ 0 → data_msg_hidden ≡ none
  pub hidden_some :
      0 < hidden_part.send_count
      → (v : List ℕ) × (data_msg_hidden ≡ some v)
        × (slice hidden_part.local_offset_server hidden_part.send_count member.state_hidden
            ≡ some v)
  pub sent_after : s'.sent ≡ s.sent ++ frames
  pub one_message :
      messages [] frames
      ≡ (identity id
          ∷ (empty
              ∷ (header (pos state_id) s.current_step change_state s.current_nsteps
                  ∷ (values data_msg ∷ hidden_contents data_msg_hidden))))
        ∷ []

state_frames-messages :
    (id : List ℕ) (state_id : ℕ) (step nsteps : ℤ) (v : List ℕ) (h : Option (List ℕ))
    → messages [] (state_frames id state_id step nsteps v h)
      ≡ (identity id
          ∷ (empty
              ∷ (header (pos state_id) step change_state nsteps ∷ (values v ∷ hidden_contents h))))
        ∷ []
unfolding messages state_frames
state_frames-messages id state_id step nsteps v none = refl
state_frames-messages id state_id step nsteps v (some w) = refl

hidden_values-none :
    (p : Part) (w : List ℕ) (h : Option (List ℕ))
    → hidden_values p w ≡ ok h
    → p.send_count ≡ 0
    → h ≡ none
unfolding hidden_values
hidden_values-none p w h e z = sym (ok_inj none h (rw (z, hidden_values) at e))

hidden_values-some :
    (p : Part) (w : List ℕ) (h : Option (List ℕ))
    → hidden_values p w ≡ ok h
    → 0 < p.send_count
    → (v : List ℕ) × (h ≡ some v) × (slice p.local_offset_server p.send_count w ≡ some v)
unfolding hidden_values
hidden_values-some p w h e pos_count =
    let t : ltb 0 p.send_count ≡ true = ground (arith, pos_count) in
    let (v, cut, e1) =
      >>=-eq-ok (or_fail out_of_range (slice p.local_offset_server p.send_count w)) _
        (rw (t, hidden_values) at e) in
    (v, sym (ok_inj (some v) h e1), or_fail-inv _ _ v cut)

-- When a state is launched on an open connection, what is sent is one message to the runner rank of
-- the connection: the header with the state, the step and the number of steps, this rank's part of
-- the analysis state of the member, and the part of its hidden state where that is not empty.
pub launch_sub_task-one_message :
    (c : Config) (id : List ℕ) (runner_rank state_id : ℕ) (s s' : Server)
    → launch_sub_task c (some id) runner_rank state_id s ≡ ok s'
    → Launched c id runner_rank state_id s s'
unfolding launch_sub_task
launch_sub_task-one_message c id runner_rank state_id s s' e =
    let (part, p, e1) = >>=-eq-ok (get_part c.comm_rank (s.field) runner_rank) _ e in
    let (member, m, e2) =
      >>=-eq-ok (or_fail out_of_range (get_elem? (s.field.ensemble_members) state_id)) _ e1 in
    let (v, d, e3) =
      >>=-eq-ok
        (or_fail out_of_range
          (slice part.local_offset_server part.send_count member.state_analysis))
        _ e2 in
    let (hidden_part, hp, e4) =
      >>=-eq-ok (get_part_hidden c.comm_rank (s.field) runner_rank) _ e3 in
    let (h, hv, e5) = >>=-eq-ok (hidden_values hidden_part member.state_hidden) _ e4 in
    record {
      part = part;
      hidden_part = hidden_part;
      member = member;
      data_msg = v;
      data_msg_hidden = h;
      frames = state_frames id state_id s.current_step s.current_nsteps v h;
      part_of = p;
      hidden_part_of = hp;
      member_of = or_fail-inv _ _ member m;
      data_of = or_fail-inv _ _ v d;
      hidden_of = hv;
      hidden_none = hidden_values-none hidden_part member.state_hidden h hv;
      hidden_some = hidden_values-some hidden_part member.state_hidden h hv;
      sent_after = ground (arith, e5);
      one_message = state_frames-messages id state_id (s.current_step) (s.current_nsteps) v h;
    }

none_addressed-stop :
    (end_flag : DataMessageType) (step : ℤ) (cs : Option (List ℕ)) (rest : List Sent)
    → none_addressed (messages [] rest) ≡ true
    → none_addressed (messages [] (stop_frames end_flag step cs ++ rest)) ≡ true
unfolding messages stop_frames none_addressed is_addressed
none_addressed-stop end_flag step none rest h = h
none_addressed-stop end_flag step (some id) rest h = h

none_addressed-runner :
    (end_flag : DataMessageType) (step : ℤ) (r : Runner) (rest : List Sent)
    → none_addressed (messages [] rest) ≡ true
    → none_addressed (messages [] (runner_stop_frames end_flag step r ++ rest)) ≡ true
unfolding runner_stop_frames
none_addressed-runner end_flag step [] rest h = h
none_addressed-runner end_flag step ((rank, cs) ∷ r) rest h =
    rw (append_assoc (stop_frames end_flag step cs) (runner_stop_frames end_flag step r) rest)
      (none_addressed-stop end_flag step cs _ (none_addressed-runner end_flag step r rest h))

-- Of the messages that stop the runners, whatever runners and connections there are, none starts
-- with an identity, an empty frame and a header.
pub stop_all-none_addressed :
    (end_flag : DataMessageType) (step : ℤ) (m : List (ℕ × Runner))
    → none_addressed (messages [] (stop_all end_flag step m)) ≡ true
unfolding stop_all messages none_addressed
stop_all-none_addressed end_flag step [] = refl
stop_all-none_addressed end_flag step ((id, r) ∷ m) =
    none_addressed-runner end_flag step r (stop_all end_flag step m)
      (stop_all-none_addressed end_flag step m)
