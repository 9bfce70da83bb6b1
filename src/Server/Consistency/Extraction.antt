-- ===== src/Server/Consistency/Extraction.antt =====
-- How `handle_data_response` of server/server.cxx moves sub tasks between the lists.
use fugaku_particle_filter.Prelude.{
  ◌+◌, ◌≡◌, refl, inl, inr, List, [], ◌∷◌, ◌++◌, Bool, true, arith, ◌==◌, ◌&&◌, if◌then◌else◌,
  length, Option, some, ℕ, Bool-cases, Option-cases,
}
use fugaku_particle_filter.Server.{Config, Server, TaskLists, SubTask}
use fugaku_particle_filter.Server.Tasks.{push_running}
use fugaku_particle_filter.Server.Responses.{DataResponse, extract, answers, finish_found}
use fugaku_particle_filter.Server.Ledger.{
  IsBalanced, count_state, count_task, total_state, total_task, count_state-append,
  count_task-append,
}
use fugaku_particle_filter.Server.Ledger.Moves.{total_state-push, total_task-push}
use fugaku_particle_filter.Server.Consistency.{IsConsistent}

-- The same states wait, and the same runners have as many sub tasks of each state.
pub record SameCounts (l l' : TaskLists) : Type 0 where
  pub waiting : l'.unscheduled_tasks ≡ l.unscheduled_tasks
  pub states : (i : ℕ) → total_state i l' ≡ total_state i l
  pub tasks : (i r : ℕ) → total_task i r l' ≡ total_task i r l

pub SameCounts-IsBalanced :
    (n k : ℕ) (l l' : TaskLists) → SameCounts l l' → IsBalanced n k l → IsBalanced n k l'
SameCounts-IsBalanced n k l l' c v = record {
  ascending = rw c.waiting v.ascending;
  balance = λ i. rw (c.waiting, c.states i) (v.balance i);
  one_runner = λ i r. rw (c.states i, c.tasks i r) (v.one_runner i r);
}

-- `extract` takes one sub task that fits out of its place.
pub record Extracted (p : SubTask → Bool) (xs : List SubTask) (st : SubTask) (others : List SubTask)
    : Type 0 where
  pub before : List SubTask
  pub behind : List SubTask
  pub whole : xs ≡ before ++ (st ∷ behind)
  pub left : others ≡ before ++ behind
  pub fits : p st ≡ true

pub extract-Extracted :
    (p : SubTask → Bool) (xs : List SubTask) (st : SubTask) (others : List SubTask)
    → extract p xs ≡ some (st, others)
    → Extracted p xs st others
unfolding extract
extract-Extracted p [] st others e = cc
extract-Extracted p (x ∷ xs) st others e = elim (Bool-cases (p x)) [
  | inl h ↦ here h (rw (h, extract) at e)
  | inr h ↦ elim (Option-cases (extract p xs)) [
    | inl q ↦ cc (rw (h, q, extract) at e)
    | inr ((found, rest), q) ↦
        later found rest (extract-Extracted p xs found rest q) (rw (h, q, extract) at e)
  ]
]
  where
    here :
        p x ≡ true
        → ◌≡◌ {A = Option (SubTask × List SubTask)} (some (x, xs)) (some (st, others))
        → Extracted p (x ∷ xs) st others
    here h q = record {
      before = [];
      behind = xs;
      whole = ground arith;
      left = ground arith;
      fits = ground arith;
    }

    later :
        (found : SubTask) (rest : List SubTask)
        → Extracted p xs found rest
        → ◌≡◌ {A = Option (SubTask × List SubTask)} (some (found, x ∷ rest)) (some (st, others))
        → Extracted p (x ∷ xs) st others
    later found rest r q = record {
      before = x ∷ r.before;
      behind = r.behind;
      whole = ground (arith, r.whole);
      left = ground (arith, r.left);
      fits = ground (arith, r.fits);
    }

Extracted-count_state :
    (i : ℕ) {p : SubTask → Bool} {xs : List SubTask} {st : SubTask} {others : List SubTask}
    → Extracted p xs st others
    → count_state i xs ≡ (if st.state_id == i then 1 else 0) + count_state i others
unfolding count_state
Extracted-count_state i {st = st} x =
    rw (x.whole, x.left)
      (omega (
        arith,
        count_state-append i x.before (st ∷ x.behind),
        count_state-append i x.before x.behind,
      ))

Extracted-count_task :
    (i r : ℕ) {p : SubTask → Bool} {xs : List SubTask} {st : SubTask} {others : List SubTask}
    → Extracted p xs st others
    → count_task i r xs
      ≡ (if st.state_id == i && st.runner_id == r then 1 else 0) + count_task i r others
unfolding count_task
Extracted-count_task i r {st = st} x =
    rw (x.whole, x.left)
      (omega (
        arith,
        count_task-append i r x.before (st ∷ x.behind),
        count_task-append i r x.before x.behind,
      ))

-- A sub task that is answered moves from the running ones to the finished ones.
pub finish_found-SameCounts :
    (m : DataResponse) (l : TaskLists)
    → SameCounts l (finish_found (extract (answers m) l.running_sub_tasks) l)
unfolding count_state count_task
finish_found-SameCounts m l = elim (Option-cases (extract (answers m) l.running_sub_tasks)) [
  | inl e ↦ rw e (record { waiting = refl; states = λ i. refl; tasks = λ i r. refl })
  | inr ((st, others), e) ↦ rw e (finished st others (extract-Extracted (answers m) _ st others e))
]
  where
    finished :
        (st : SubTask) (others : List SubTask)
        → Extracted (answers m) l.running_sub_tasks st others
        → SameCounts l (finish_found (some (st, others)) l)
    finished st others x = record {
      waiting = refl;
      states = λ i.
          omega
            (arith, Extracted-count_state i x, count_state-append i l.finished_sub_tasks (st ∷ []));
      tasks = λ i r.
          omega (
            arith,
            Extracted-count_task i r x,
            count_task-append i r l.finished_sub_tasks (st ∷ []),
          );
    }

-- A sub task that is launched moves from the scheduled ones to the running ones.
pub launched-SameCounts :
    (p : SubTask → Bool) (l : TaskLists) (st : SubTask) (others : List SubTask)
    → Extracted p l.scheduled_sub_tasks st others
    → SameCounts l (push_running st (record l { scheduled_sub_tasks = others }))
launched-SameCounts p l st others x = record {
  waiting = refl;
  states = λ i. omega (
    arith,
    Extracted-count_state i x,
    (total_state-push i st (record l { scheduled_sub_tasks = others })).0,
  );
  tasks = λ i r. omega (
    arith,
    Extracted-count_task i r x,
    (total_task-push i r st (record l { scheduled_sub_tasks = others })).0,
  );
}

-- A step that moves sub tasks along, and leaves the ranks of the field as they are.
pub counted :
    (c : Config) (s s' : Server) (l : TaskLists)
    → SameCounts s.lists l
    → s'.lists ≡ l
    → s'.field.connected_runner_ranks ≡ s.field.connected_runner_ranks
    → IsConsistent c s
    → IsConsistent c s'
counted c s s' l same e f v = record {
  balanced =
      rw (e, f)
        (SameCounts-IsBalanced c.ensemble_size (length (s.field.connected_runner_ranks)) s.lists l
          same v.balanced);
  connected = rw f v.connected;
}
