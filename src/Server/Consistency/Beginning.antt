-- ===== src/Server/Consistency/Beginning.antt =====
-- `init_new_timestep` of server/server.cxx: the books at the start of a time step.
use fugaku_particle_filter.Prelude.{
  ℕ, zero, suc, ◌+◌, ◌<◌, ◌≡◌, refl, subst, inl, List, [], ◌∷◌, true, arith, ltb, leb, ◌&&◌,
  if◌then◌else◌, length, ok, check-inv, ok_inj,
}
use fugaku_particle_filter.Containers.{set_count}
use fugaku_particle_filter.Containers.Sets.{Ascending, AllAbove}
use fugaku_particle_filter.Field.{is_empty}
use fugaku_particle_filter.Server.{Config, Server, TaskLists}
use fugaku_particle_filter.Server.Tasks.{ids_from, init_new_timestep}
use fugaku_particle_filter.Server.Ledger.{count_state, count_task, IsBalanced}
use fugaku_particle_filter.Server.Consistency.{IsConsistent}

ids_from-AllAbove : (x i n : ℕ) → x < i → AllAbove x (ids_from i n)
unfolding ids_from
ids_from-AllAbove x i zero h = tt
ids_from-AllAbove x i (suc n) h = (h, ids_from-AllAbove x (i + 1) n (omega arith))

ids_from-Ascending : (i n : ℕ) → Ascending (ids_from i n)
unfolding ids_from
ids_from-Ascending i zero = tt
ids_from-Ascending i (suc n) =
    (ids_from-AllAbove i (i + 1) n (omega arith), ids_from-Ascending (i + 1) n)

set_count-ids_from :
    (x i n : ℕ) → set_count x (ids_from i n) ≡ (if leb i x && ltb x (i + n) then 1 else 0)
unfolding set_count ids_from
set_count-ids_from x i zero = ground arith
set_count-ids_from x i (suc n) = ground (arith, set_count-ids_from x (i + 1) n)

pub is_empty-inv {ℓ} : {A : Type ℓ} (xs : List A) → is_empty xs ≡ true → xs ≡ []
is_empty-inv [] e = refl
is_empty-inv (x ∷ xs) e = cc

-- A new time step: every state waits.
fresh-IsBalanced :
    (n k : ℕ) (l : TaskLists)
    → l.unscheduled_tasks ≡ ids_from 0 n
    → l.scheduled_sub_tasks ≡ []
    → l.running_sub_tasks ≡ []
    → l.finished_sub_tasks ≡ []
    → IsBalanced n k l
unfolding count_state count_task
fresh-IsBalanced n k l e e1 e2 e3 = record {
  ascending = rw e (ids_from-Ascending 0 n);
  balance = λ i. rw (e, e1, e2, e3, set_count-ids_from i 0 n) (ground arith);
  one_runner = λ i r. rw (e1, e2, e3) (inl refl);
}

pub init_new_timestep-IsConsistent :
    (c : Config) (s s' : Server)
    → init_new_timestep c s ≡ ok s'
    → 0 < length s.field.connected_runner_ranks
    → IsConsistent c s'
unfolding init_new_timestep
init_new_timestep-IsConsistent c s s' e ranks =
    let (_, e1) = check-inv _ _ e in
    let (no_scheduled, e2) = check-inv (is_empty s.lists.scheduled_sub_tasks) _ e1 in
    let (no_running, e3) = check-inv (is_empty s.lists.running_sub_tasks) _ e2 in
    let (_, e4) = check-inv (is_empty s.lists.unscheduled_tasks) _ e3 in
    subst (IsConsistent c) (ok_inj _ s' e4) (record {
      balanced =
          fresh-IsBalanced c.ensemble_size (length (s.field.connected_runner_ranks)) _ refl
            (is_empty-inv s.lists.scheduled_sub_tasks no_scheduled)
            (is_empty-inv s.lists.running_sub_tasks no_running) refl;
      connected = ranks;
    })
