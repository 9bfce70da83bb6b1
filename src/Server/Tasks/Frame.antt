-- ===== src/Server/Tasks/Frame.antt =====
-- What the operations of server/server.cxx on connections and tasks leave as it was.
use fugaku_particle_filter.Prelude.{
  ℕ, ◌≡◌, Bool, true, false, arith, none, some, Result, ok, >>=-eq-ok, ◌>>=◌, Option-cases, inl,
  inr,
}
use fugaku_particle_filter.Server.{Config, Server, Connection, Runner, SubTask}
use fugaku_particle_filter.Server.Connections.{launch_sub_task}
use fugaku_particle_filter.Server.Tasks.{
  try_launch_subtask, find_connection, drop_connection, erase_idle_runner,
}

-- Sending a state changes nothing but what has been sent.
pub launch_sub_task-ok :
    (c : Config) (cs : Connection) (runner_rank state_id : ℕ) (s s' : Server)
    → launch_sub_task c cs runner_rank state_id s ≡ ok s'
    → s' ≡ record s { sent = s'.sent }
unfolding launch_sub_task
launch_sub_task-ok c none runner_rank state_id s s' e = cc
launch_sub_task-ok c (some id) runner_rank state_id s s' e = ground arith

-- What stays as it was while a runner is found for a sub task.
pub record Undisturbed (s s' : Server) : Type 0 where
  pub lists_same : s'.lists ≡ s.lists
  pub killed_same : s'.killed ≡ s.killed
  pub field_same : s'.field ≡ s.field
  pub failcount_same : s'.failcount ≡ s.failcount

pub try_launch_subtask-ok :
    (c : Config) (st : SubTask) (s s' : Server) (b : Bool)
    → try_launch_subtask c st s ≡ ok (b, s')
    → Undisturbed s s'
unfolding try_launch_subtask
try_launch_subtask-ok c st s s' b e = elim (Option-cases (find_connection st s)) [
  | inl missing ↦ none_found (rw (missing, try_launch_subtask) at e)
  | inr ((r, cs), found) ↦ launched r cs (rw (found, try_launch_subtask) at e)
]
  where
    none_found : ◌≡◌ {A = Result (Bool × Server)} (ok (false, s)) (ok (b, s')) → Undisturbed s s'
    none_found h = ground arith

    launched :
        (r : Runner) (cs : Connection)
        → ◌>>=◌ {U = Bool × Server}
            (launch_sub_task c cs st.runner_rank st.state_id s)
            (λ s1. ok (true, drop_connection st r s1))
          ≡ ok (b, s')
        → Undisturbed s s'
    launched r cs h =
        let (s1, sent, rest) = >>=-eq-ok (launch_sub_task c cs st.runner_rank st.state_id s) _ h in
        ground (arith, launch_sub_task-ok c cs st.runner_rank st.state_id s s1 sent, rest)

pub erase_idle_runner-Undisturbed :
    (runner_id : ℕ) (s : Server) → Undisturbed s (erase_idle_runner runner_id s)
unfolding erase_idle_runner
erase_idle_runner-Undisturbed runner_id s = ground arith
