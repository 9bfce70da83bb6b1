-- ===== src/Server/Ledger/Total.antt =====
-- The sums over the books, for the equation that the main loop of server/server.cxx asserts.
use fugaku_particle_filter.Prelude.{
  ℕ, zero, suc, ◌+◌, ◌*◌, ◌≤◌, ◌<◌, ◌≡◌, refl, List, [], ◌∷◌, arith, ltb, if◌then◌else◌, length,
  min, ◌∙◌, lt→ltb, false,
}
use native.Mathlib.Decide.{dec_lt}
use fugaku_particle_filter.Containers.{set_count}
use fugaku_particle_filter.Server.{TaskLists, SubTask}
use fugaku_particle_filter.Server.Ledger.{
  count_state, total_state, IsBalanced, count_below, waiting_below,
}

waiting_below-suc :
    (n : ℕ) (xs : List ℕ) → waiting_below (suc n) xs ≡ waiting_below n xs + set_count n xs
unfolding set_count
waiting_below-suc n [] = omega arith
waiting_below-suc n (x ∷ xs) = ground (arith, waiting_below-suc n xs)

count_below-suc :
    (n : ℕ) (xs : List SubTask) → count_below (suc n) xs ≡ count_below n xs + count_state n xs
unfolding count_state
count_below-suc n [] = omega arith
count_below-suc n (x ∷ xs) = ground (arith, count_below-suc n xs)

waiting_below-zero : (xs : List ℕ) → waiting_below 0 xs ≡ 0
waiting_below-zero [] = refl
waiting_below-zero (x ∷ xs) = ground (arith, waiting_below-zero xs)

count_below-zero : (xs : List SubTask) → count_below 0 xs ≡ 0
count_below-zero [] = refl
count_below-zero (x ∷ xs) = ground (arith, count_below-zero xs)

waiting_below-all :
    (n : ℕ) (xs : List ℕ) → ((i : ℕ) → n ≤ i → set_count i xs ≡ 0) → waiting_below n xs ≡ length xs
unfolding set_count
waiting_below-all n [] h = refl
waiting_below-all n (x ∷ xs) h =
    ground (arith, h x, waiting_below-all n xs (λ i le. omega (arith, h i le)))

count_below-all :
    (n : ℕ) (xs : List SubTask)
    → ((i : ℕ) → n ≤ i → count_state i xs ≡ 0)
    → count_below n xs ≡ length xs
unfolding count_state
count_below-all n [] h = refl
count_below-all n (x ∷ xs) h =
    ground (arith, h x.state_id, count_below-all n xs (λ i le. omega (arith, h i le)))

abbrev total_below : ℕ → ℕ → TaskLists → ℕ
total_below n k l =
    waiting_below n l.unscheduled_tasks * k
    + (count_below n l.scheduled_sub_tasks
        + count_below n l.running_sub_tasks
        + count_below n l.finished_sub_tasks)

total_below-suc :
    (m k : ℕ) (l : TaskLists)
    → total_below (suc m) k l
      ≡ total_below m k l + (set_count m l.unscheduled_tasks * k + total_state m l)
total_below-suc m k l = rw (waiting_below-suc m l.unscheduled_tasks) (
    omega (
      arith,
      count_below-suc m l.scheduled_sub_tasks,
      count_below-suc m l.running_sub_tasks,
      count_below-suc m l.finished_sub_tasks,
    ))

min_below : (m n k : ℕ) → m < n → min (suc m) n * k ≡ min m n * k + k
min_below m n k h =
    let e : min (suc m) n ≡ suc m = omega arith in
    let f : min m n ≡ m = omega arith in rw (e, f) (omega arith)

min-suc : (m n k : ℕ) → min (suc m) n * k ≡ min m n * k + (if ltb m n then k else 0)
min-suc m n k = elim (dec_lt m n) [
  | yes h ↦ rw (lt→ltb m n h) (min_below m n k h)
  | no h ↦
      let e : min (suc m) n ≡ min m n = omega arith in
      let f : ltb m n ≡ false = ground arith in rw (e, f) (omega arith)
]

total_below-eq : (n k m : ℕ) (l : TaskLists) → IsBalanced n k l → total_below m k l ≡ min m n * k
total_below-eq n k zero l v =
    let z : min 0 n ≡ 0 = omega arith in
    rw (waiting_below-zero l.unscheduled_tasks, z)
      (omega (
        arith,
        count_below-zero l.scheduled_sub_tasks,
        count_below-zero l.running_sub_tasks,
        count_below-zero l.finished_sub_tasks,
      ))
total_below-eq n k (suc m) l v =
    total_below-suc m k l ∙ ground (arith, total_below-eq n k m l v, v.balance m, min-suc m n k)

mul_zero_inv : (a t k : ℕ) → 0 < k → a * k + t ≡ 0 → (a ≡ 0) × (t ≡ 0)
mul_zero_inv zero t k h e = omega arith
mul_zero_inv (suc a) t k h e = absurd (omega arith)

none_above :
    (n k i : ℕ) (l : TaskLists)
    → IsBalanced n k l
    → 0 < k
    → n ≤ i
    → (set_count i l.unscheduled_tasks ≡ 0) × (total_state i l ≡ 0)
none_above n k i l v h le =
    mul_zero_inv (set_count i l.unscheduled_tasks) (total_state i l) k h
      (ground (arith, v.balance i))

-- With balanced books every state is accounted for: it waits, or each of its `k` sub tasks is
-- scheduled, running or finished.
pub IsBalanced-total :
    (n k : ℕ) (l : TaskLists)
    → IsBalanced n k l
    → 0 < k
    → length l.unscheduled_tasks * k
        + length l.scheduled_sub_tasks
        + length l.running_sub_tasks
        + length l.finished_sub_tasks
      ≡ k * n
IsBalanced-total n k l v h =
    let above = λ (i : ℕ) (le : n ≤ i). none_above n k i l v h le in
    let waiting = waiting_below-all n l.unscheduled_tasks (λ i le. (above i le).0) in
    let all : min n n ≡ n = omega arith in
    let e = rw (waiting, all) at (total_below-eq n k n l v) in
    omega (
      arith,
      e,
      count_below-all n l.scheduled_sub_tasks (λ i le. omega (arith, (above i le).1)),
      count_below-all n l.running_sub_tasks (λ i le. omega (arith, (above i le).1)),
      count_below-all n l.finished_sub_tasks (λ i le. omega (arith, (above i le).1)),
    )
