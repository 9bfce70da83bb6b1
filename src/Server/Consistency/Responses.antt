-- ===== src/Server/Consistency/Responses.antt =====
-- `handle_data_response` of server/server.cxx and the books.
use fugaku_particle_filter.Prelude.{
  ◌≡◌, refl, subst, inl, inr, List, arith, ◌==◌, ◌&&◌, ◌||◌, length, Option, some, ℕ, ok, ◌>>=◌,
  >>=-eq-ok, check-inv, ok_inj, Bool-cases, Option-cases,
}
use text.Mathlib.Text.{◌==◌ as str_eq}
use fugaku_particle_filter.Prelude.Int.{pos_part, pos, eq_ℤ}
use fugaku_particle_filter.Part.{Part}
use fugaku_particle_filter.Field.{Field, store_part, get_part, get_part_hidden}
use fugaku_particle_filter.Server.{Config, Server, SubTask, Connection, is_killed}
use fugaku_particle_filter.Server.Connections.{launch_sub_task}
use fugaku_particle_filter.Server.Tasks.{schedule_new_task, push_running}
use fugaku_particle_filter.Server.Tasks.Frame.{launch_sub_task-ok}
use fugaku_particle_filter.Server.Responses.{
  DataResponse, notify_connected, extract, answers, awaits, finish_found, is_found, receive_hidden,
  store_values, save_connection, ranks_of, schedule_if_idle, use_connection, accept_response,
  answer_response, handle_data_response,
}
use fugaku_particle_filter.Server.Consistency.{
  IsConsistent, Keeps, Keeps-same, schedule_new_task-Keeps,
}
use fugaku_particle_filter.Server.Consistency.Extraction.{
  extract-Extracted, finish_found-SameCounts, launched-SameCounts, counted,
}

notify_connected-Keeps :
    (c : Config) (m : DataResponse) (s s' : Server) → notify_connected c m s ≡ ok s' → Keeps c s s'
unfolding notify_connected
notify_connected-Keeps c m s s' e = Keeps-same c s s' (ground arith) (ground arith) (ground arith)

store_part-ranks :
    (state_id : ℕ) (part : Part) (values : Option (List ℕ)) (hidden_part : Part)
    (values_hidden : Option (List ℕ)) (f f' : Field)
    → store_part state_id part values hidden_part values_hidden f ≡ ok f'
    → f'.connected_runner_ranks ≡ f.connected_runner_ranks
unfolding store_part
store_part-ranks state_id part values hidden_part values_hidden f f' e = ground arith

store_values-Keeps :
    (c : Config) (m : DataResponse) (part hidden_part : Part) (values_hidden : Option (List ℕ))
    (s s' : Server)
    → store_values m part hidden_part values_hidden s ≡ ok s'
    → Keeps c s s'
unfolding store_values
store_values-Keeps c m part hidden_part values_hidden s s' e =
    Keeps-same c s s' (ground arith)
      (ground (
        arith,
        store_part-ranks (pos_part m.runner_state_id) part (some m.data_msg) hidden_part
            values_hidden s.field s'.field,
      ))
      (ground arith)

save_connection-Keeps :
    (c : Config) (m : DataResponse) (csr : Connection) (s : Server)
    → Keeps c s (save_connection m csr s)
unfolding save_connection
save_connection-Keeps c m csr s = Keeps-same c s _ (ground arith) (ground arith) (ground arith)

schedule_if_idle-Keeps :
    (c : Config) (now runner_id : ℕ) (s s' : Server)
    → schedule_if_idle c now runner_id s ≡ ok s'
    → Keeps c s s'
unfolding schedule_if_idle
schedule_if_idle-Keeps c now runner_id s s' e =
    elim (Bool-cases (
      c.comm_rank == 0
      && ranks_of runner_id s.idle_runners == length s.field.connected_runner_ranks)) [
        | inl h ↦ scheduled (rw h at e)
        | inr h ↦ subst (Keeps c s) (ok_inj s s' (rw h at e)) (Keeps-same c s s refl refl refl)
      ]
  where
    scheduled : (schedule_new_task c now runner_id s >>= λ r. ok (r.1)) ≡ ok s' → Keeps c s s'
    scheduled h =
        let ((b, s1), done, rest) = >>=-eq-ok (schedule_new_task c now runner_id s) _ h in
        subst (Keeps c s) (ok_inj s1 s' rest) (schedule_new_task-Keeps c now runner_id s s1 b done)

use_connection-IsConsistent :
    (c : Config) (now : ℕ) (m : DataResponse) (csr : Connection) (s s' : Server)
    → use_connection c now m csr s ≡ ok s'
    → IsConsistent c s
    → IsConsistent c s'
unfolding use_connection
use_connection-IsConsistent c now m csr s s' e v =
    elim (Option-cases (extract (awaits m) s.lists.scheduled_sub_tasks)) [
      | inl q ↦ saved (rw (q, use_connection) at e)
      | inr ((st, others), q) ↦ launched st others q (rw (q, use_connection) at e)
    ]
  where
    saved : schedule_if_idle c now m.runner_id (save_connection m csr s) ≡ ok s' → IsConsistent c s'
    saved h =
        (schedule_if_idle-Keeps c now m.runner_id (save_connection m csr s) s' h).consistent
          ((save_connection-Keeps c m csr s).consistent v)

    launched :
        (st : SubTask) (others : List SubTask)
        → extract (awaits m) s.lists.scheduled_sub_tasks ≡ some (st, others)
        → (launch_sub_task c csr m.runner_rank st.state_id s >>= λ s1. ok (record s1 {
          lists = push_running st (record (s1.lists) { scheduled_sub_tasks = others });
        }))
          ≡ ok s'
        → IsConsistent c s'
    launched st others q h =
        let (s1, sent, rest) = >>=-eq-ok (launch_sub_task c csr m.runner_rank st.state_id s) _ h in
        let same = launch_sub_task-ok c csr m.runner_rank st.state_id s s1 sent in
        counted c s s' (push_running st (record (s.lists) { scheduled_sub_tasks = others }))
          (launched-SameCounts (awaits m) s.lists st others
            (extract-Extracted (awaits m) s.lists.scheduled_sub_tasks st others q))
          (ground (arith, same, rest)) (ground (arith, same, rest)) v

accept_response-IsConsistent :
    (c : Config) (now : ℕ) (m : DataResponse) (s s' : Server)
    → accept_response c now m s ≡ ok s'
    → IsConsistent c s
    → IsConsistent c s'
unfolding accept_response
accept_response-IsConsistent c now m s s' e v =
    let found = extract (answers m) s.lists.running_sub_tasks in
    let s1 : Server = record s { lists = finish_found found s.lists } in
    let v1 : IsConsistent c s1 =
      counted c s s1 (finish_found found s.lists) (finish_found-SameCounts m s.lists) refl refl v in
    let e1 = (check-inv (eq_ℤ m.runner_timestep (pos 0) || is_found found) _ e).1 in
    let e2 =
      (check-inv (eq_ℤ m.runner_timestep (pos 0) || eq_ℤ m.runner_timestep (s1.current_step)) _
        e1).1 in
    let e3 = (check-inv (str_eq (s1.field.name) m.field_name) _ e2).1 in
    let (part, _, e4) = >>=-eq-ok (get_part c.comm_rank (s1.field) m.runner_rank) _ e3 in
    let e5 = (check-inv (length m.data_msg == part.send_count) _ e4).1 in
    let (hidden_part, _, e6) =
      >>=-eq-ok (get_part_hidden c.comm_rank (s1.field) m.runner_rank) _ e5 in
    let (values_hidden, _, e7) = >>=-eq-ok (receive_hidden hidden_part m) _ e6 in
    let (s2, stored, e8) = >>=-eq-ok (store_values m part hidden_part values_hidden s1) _ e7 in
    use_connection-IsConsistent c now m (some m.identity) s2 s' e8
      ((store_values-Keeps c m part hidden_part values_hidden s1 s2 stored).consistent v1)

answer_response-IsConsistent :
    (c : Config) (now : ℕ) (m : DataResponse) (s s' : Server)
    → answer_response c now m s ≡ ok s'
    → IsConsistent c s
    → IsConsistent c s'
unfolding answer_response
answer_response-IsConsistent c now m s s' e v = elim (Bool-cases (is_killed m.runner_id s.killed)) [
  | inl h ↦
      (Keeps-same c s s' (ground (arith, h)) (ground (arith, h)) (ground (arith, h))).consistent v
  | inr h ↦ accept_response-IsConsistent c now m s s' (rw h at e) v
]

-- When `handle_data_response` returns, on whatever message, the books are balanced if they were
-- before: every state of the ensemble either waits, or has as many sub tasks as there are connected
-- runner ranks, all on one runner; there are no other sub tasks, and there is a connected runner
-- rank. Which of the ranks a sub task is for is not part of the books.
pub handle_data_response-IsConsistent :
    (c : Config) (now : ℕ) (m : DataResponse) (s s' : Server)
    → handle_data_response c now m s ≡ ok s'
    → IsConsistent c s
    → IsConsistent c s'
unfolding handle_data_response
handle_data_response-IsConsistent c now m s s' e v =
    let s0 : Server = record s { identity_size = length m.identity } in
    let e1 = (check-inv (s.identity_size == 0 || s.identity_size == length m.identity) _ e).1 in
    let (s1, notified, e2) = >>=-eq-ok (notify_connected c m s0) _ e1 in
    answer_response-IsConsistent c now m s1 s' e2 (
      (notify_connected-Keeps c m s0 s1 notified).consistent
        ((Keeps-same c s s0 refl refl refl).consistent v))
