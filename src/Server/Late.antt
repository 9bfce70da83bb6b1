-- ===== src/Server/Late.antt =====
-- server/server.cxx: what becomes of a runner that was late, from `check_due_dates` to
-- `handle_data_response`.
use fugaku_particle_filter.Prelude.{
  ℕ, ◌≡◌, refl, ◌++◌, some, not, append_assoc, append-nil, Bool-cases, Option-cases, inl, inr, sym,
  ap, ◌∙◌, List, [], ◌∷◌, Bool, true, false, ◌==◌, ◌&&◌, ◌||◌, ltb, length, ok, >>=-eq-ok,
  check-inv, ok_inj, arith, subst,
}
use fugaku_particle_filter.Server.{
  Config, Server, Task, SubTask, is_killed, emplace_task, Sent, frame, identity, empty, header,
  values, change_state, keep_state, end_runner, kill_runner, notify, running,
}
use fugaku_particle_filter.Containers.{map_find}
use fugaku_particle_filter.Server.Connections.{stop_frames}
use fugaku_particle_filter.Server.Tasks.{kill_task}
use fugaku_particle_filter.Server.Tasks.Frame.{erase_idle_runner-Undisturbed}
use fugaku_particle_filter.Server.Requests.{overdue, expire_task, expire_tasks, check_due_dates}
use fugaku_particle_filter.Server.Responses.{
  DataResponse, handle_data_response, answer_response, notify_connected,
}
use fugaku_particle_filter.Server.Consistency.Timeouts.{expire_task-Keeps}

-- Whether a sub task of the runner is overdue.
abbrev pub is_late : ℕ → ℕ → List SubTask → Bool
is_late r now [] = false
is_late r now (st ∷ sts) = st.runner_id == r && ltb st.due_date now || is_late r now sts

is_killed-emplace_task :
    (r : ℕ) (t : Task) (ts : List Task)
    → is_killed r (emplace_task t ts) ≡ (t.runner_id == r || is_killed r ts)
unfolding is_killed emplace_task
is_killed-emplace_task r t [] = ground arith
is_killed-emplace_task r t (u ∷ us) = ground (arith, is_killed-emplace_task r t us)

is_killed-overdue :
    (r now : ℕ) (xs : List SubTask) (ts : List Task)
    → is_killed r (overdue now xs ts) ≡ (is_late r now xs || is_killed r ts)
unfolding overdue
is_killed-overdue r now [] ts = ground arith
is_killed-overdue r now (x ∷ xs) ts = ground (
  arith,
  is_killed-overdue r now xs ts,
  is_killed-overdue r now xs
      (emplace_task (record { state_id = x.state_id; runner_id = x.runner_id }) ts),
  is_killed-emplace_task r (record { state_id = x.state_id; runner_id = x.runner_id }) ts,
)

is_killed-kill_task :
    (r : ℕ) (t : Task) (s : Server)
    → is_killed r (kill_task t s).killed ≡ (t.runner_id == r || is_killed r s.killed)
unfolding kill_task
is_killed-kill_task r t s =
    rw (erase_idle_runner-Undisturbed t.runner_id s).killed_same
      (is_killed-emplace_task r t s.killed)

is_killed-expire_tasks :
    (r : ℕ) (c : Config) (now : ℕ) (ts : List Task) (s s' : Server)
    → expire_tasks c now ts s ≡ ok s'
    → (is_killed r ts || is_killed r s.killed) ≡ true
    → is_killed r s'.killed ≡ true
unfolding expire_tasks is_killed
is_killed-expire_tasks r c now [] s s' e k =
    subst (λ x. is_killed r (x.killed) ≡ true) (ok_inj s s' e) k
is_killed-expire_tasks r c now (t ∷ ts) s s' e k =
    let (s1, expired, rest) = >>=-eq-ok (expire_task c now t s) _ e in
    is_killed-expire_tasks r c now ts s1 s' rest (
      rw (expire_task-Keeps c now t s s1 expired).killed_same
        (ground (arith, is_killed-kill_task r t s, k)))

-- Whether a frame has a state or values for a runner in it, or the header of a state.
unfoldable pub carries_state : Sent → Bool
carries_state (frame f) = elim (f.content) [
  | identity _ ↦ false
  | empty ↦ false
  | header _ _ t _ ↦ elim t [
    | change_state ↦ true
    | keep_state ↦ true
    | end_runner ↦ false
    | kill_runner ↦ false
  ]
  | values _ ↦ true
]
carries_state _ = false

unfoldable pub none_carries_state : List Sent → Bool
unfolding carries_state
none_carries_state [] = true
none_carries_state (x ∷ xs) = not (carries_state x) && none_carries_state xs

-- The server after a message that changes nothing about tasks, connections and states, and after which
-- no state is sent.
pub record Ignored (s s' : Server) : Type 0 where
  pub answer : List Sent
  pub sent_after : s'.sent ≡ s.sent ++ answer
  pub no_state : none_carries_state answer ≡ true
  pub lists_same : s'.lists ≡ s.lists
  pub idle_runners_same : s'.idle_runners ≡ s.idle_runners
  pub field_same : s'.field ≡ s.field
  pub killed_same : s'.killed ≡ s.killed

none_carries_state-append :
    (xs ys : List Sent)
    → none_carries_state xs ≡ true
    → none_carries_state ys ≡ true
    → none_carries_state (xs ++ ys) ≡ true
unfolding none_carries_state
none_carries_state-append [] ys h k = k
none_carries_state-append (x ∷ xs) ys h k = ground (arith, h, none_carries_state-append xs ys)

Ignored-trans : (s s' s'' : Server) → Ignored s s' → Ignored s' s'' → Ignored s s''
Ignored-trans s s' s'' a b = record {
  answer = a.answer ++ b.answer;
  sent_after =
      b.sent_after ∙ ap (λ l. l ++ b.answer) a.sent_after ∙ append_assoc s.sent a.answer b.answer;
  no_state = none_carries_state-append a.answer b.answer a.no_state b.no_state;
  lists_same = b.lists_same ∙ a.lists_same;
  idle_runners_same = b.idle_runners_same ∙ a.idle_runners_same;
  field_same = b.field_same ∙ a.field_same;
  killed_same = b.killed_same ∙ a.killed_same;
}

same : (s : Server) → Ignored s s
unfolding none_carries_state
same s = record {
  answer = [];
  sent_after = sym (append-nil s.sent);
  no_state = refl;
  lists_same = refl;
  idle_runners_same = refl;
  field_same = refl;
  killed_same = refl;
}

told :
    (s : Server) (runner_id : ℕ) (notified : List (ℕ × Bool))
    → Ignored s (record s {
      sent = s.sent ++ (notify runner_id running ∷ []);
      launcher_notified_about_runner = notified;
    })
unfolding none_carries_state
told s runner_id notified = record {
  answer = notify runner_id running ∷ [];
  sent_after = refl;
  no_state = refl;
  lists_same = refl;
  idle_runners_same = refl;
  field_same = refl;
  killed_same = refl;
}

notify_connected-Ignored :
    (c : Config) (m : DataResponse) (s s' : Server) → notify_connected c m s ≡ ok s' → Ignored s s'
unfolding notify_connected
notify_connected-Ignored c m s s' e = elim (Bool-cases (c.comm_rank == 0)) [
  | inr f ↦ subst (Ignored s) (ok_inj s s' (rw (f, notify_connected) at e)) (same s)
  | inl t ↦ elim (Option-cases (map_find m.runner_id s.launcher_notified_about_runner)) [
    | inl unknown ↦ absurd (ground (arith, rw (t, unknown, notify_connected) at e))
    | inr known ↦
        let (b, found) = known in
        elim (Bool-cases b) [
          | inl told_before ↦
              subst (Ignored s) (ok_inj s s' (rw (t, found, told_before, notify_connected) at e))
                (same s)
          | inr not_yet ↦
              subst (Ignored s) (ok_inj _ s' (rw (t, found, not_yet, notify_connected) at e))
                (told s m.runner_id _)
        ]
  ]
]

answer_response-Ignored :
    (c : Config) (now : ℕ) (m : DataResponse) (s s' : Server)
    → answer_response c now m s ≡ ok s'
    → is_killed m.runner_id s.killed ≡ true
    → Ignored s s'
unfolding answer_response stop_frames none_carries_state
answer_response-Ignored c now m s s' e k =
    let h = ok_inj _ s' (rw k at e) in
    record {
      answer = stop_frames kill_runner s.current_step (some m.identity);
      sent_after = sym (ap (λ x. x.sent) h);
      no_state = refl;
      lists_same = sym (ap (λ x. x.lists) h);
      idle_runners_same = sym (ap (λ x. x.idle_runners) h);
      field_same = sym (ap (λ x. x.field) h);
      killed_same = sym (ap (λ x. x.killed) h);
    }

handle_data_response-Ignored :
    (c : Config) (now : ℕ) (m : DataResponse) (s s' : Server)
    → handle_data_response c now m s ≡ ok s'
    → is_killed m.runner_id s.killed ≡ true
    → Ignored s s'
unfolding handle_data_response
handle_data_response-Ignored c now m s s' e k =
    let s0 : Server = record s { identity_size = length m.identity } in
    let e1 = (check-inv (s.identity_size == 0 || s.identity_size == length m.identity) _ e).1 in
    let (s1, notified, e2) = >>=-eq-ok (notify_connected c m s0) _ e1 in
    let a = notify_connected-Ignored c m s0 s1 notified in
    let b = answer_response-Ignored c now m s1 s' e2 (rw a.killed_same k) in
    Ignored-trans s s1 s'
      (record {
        answer = a.answer;
        sent_after = a.sent_after;
        no_state = a.no_state;
        lists_same = a.lists_same;
        idle_runners_same = a.idle_runners_same;
        field_same = a.field_same;
        killed_same = a.killed_same;
      })
      b

-- If a sub task of a runner is overdue when `check_due_dates` runs, and both calls return, a
-- message that this runner sends next changes neither the task lists, the idle runners, the list of
-- the killed ones nor the field, and no frame with a state is sent.
pub check_due_dates-Ignored :
    (c : Config) (now later : ℕ) (m : DataResponse) (s s1 s2 : Server)
    → check_due_dates c now s ≡ ok s1
    → handle_data_response c later m s1 ≡ ok s2
    → (is_late m.runner_id now s.lists.scheduled_sub_tasks
        || is_late m.runner_id now s.lists.running_sub_tasks)
      ≡ true
    → Ignored s1 s2
unfolding check_due_dates
check_due_dates-Ignored c now later m s s1 s2 e h k =
    handle_data_response-Ignored c later m s1 s2 h (
      is_killed-expire_tasks m.runner_id c now _ s s1 e (
        ground (
          arith,
          is_killed-overdue m.runner_id now s.lists.running_sub_tasks
              (overdue now s.lists.scheduled_sub_tasks []),
          is_killed-overdue m.runner_id now s.lists.scheduled_sub_tasks [],
          k,
        )))
