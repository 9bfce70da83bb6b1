-- ===== src/Storage/Room.antt =====
-- api/p2p/StorageController/storage_controller.cxx: the loop of `m_pull_head` that makes room, and the
-- size of the pool.
use fugaku_particle_filter.Prelude.{
  ℕ, zero, suc, ◌+◌, ◌-◌, ◌*◌, ◌/◌, ◌^◌, ◌≤◌, ◌<◌, ◌≡◌, refl, sym, ap, inl, inr, leb, if◌then◌else◌,
  arith, Bool-cases, Result, ok, err, exit, ok_inj, >>=-eq-ok, ◌>>=◌, subst, Result-cases, min,
}
use fugaku_particle_filter.Storage.{
  StorageController, free, delete_request, make_room, pool_capacity,
}
use fugaku_particle_filter.Storage.Deleted.{delete_request-Deleted}
use fugaku_particle_filter.Storage.Io.{IoController}

module _ (I : IoController) where
  pub delete_request-frees :
      (s s' : StorageController I)
      → delete_request I s ≡ ok s'
      → (s'.used_slots + 1 ≡ s.used_slots) × (s'.capacity ≡ s.capacity)
  delete_request-frees s s' e =
      let d = delete_request-Deleted I s s' e in
      (omega (arith, ap (λ z. z.used_slots) d.is, d.used), sym (ap (λ z. z.capacity) d.is))

  -- The loop of the source: while less than two slots are free, a state is deleted.
  abbrev pub loop_round :
      (StorageController I → Result (StorageController I))
      → StorageController I
      → Result (StorageController I)
  loop_round again s = if leb (free I s) 1 then delete_request I s >>= again else ok s

  unrolls_at :
      (n : ℕ) (s : StorageController I)
      → s.used_slots ≡ n
      → make_room I n s ≡ loop_round (λ s'. make_room I s'.used_slots s') s
  unfolding make_room
  unrolls_at zero s e = elim (Result-cases (delete_request I s)) [
    | inl (s', d) ↦ absurd (omega (arith, (delete_request-frees s s' d).0, e))
    | inr (f, d) ↦ rw d refl
  ]
  unrolls_at (suc n) s e = elim (Result-cases (delete_request I s)) [
    | inl (s', d) ↦
        let left : s'.used_slots ≡ n = omega (arith, (delete_request-frees s s' d).0, e) in
        rw (d, left) refl
    | inr (f, d) ↦ rw d refl
  ]

  room_at :
      (n : ℕ) (s s' : StorageController I)
      → s.used_slots ≡ n
      → make_room I n s ≡ ok s'
      → 1 < free I s'
  unfolding make_room
  room_at zero s s' u e = elim (Bool-cases (leb (free I s) 1)) [
    | inl t ↦ absurd (omega (arith, (delete_request-frees s s' (rw (t, make_room) at e)).0, u))
    | inr f ↦ subst (λ z. 1 < free I z) (ok_inj s s' (rw (f, make_room) at e)) (ground (arith, f))
  ]
  room_at (suc n) s s' u e = elim (Bool-cases (leb (free I s) 1)) [
    | inl t ↦
        let (s1, d, rest) = >>=-eq-ok (delete_request I s) _ (rw (t, make_room) at e) in
        room_at n s1 s' (omega (arith, (delete_request-frees s s1 d).0, u)) rest
    | inr f ↦ subst (λ z. 1 < free I z) (ok_inj s s' (rw (f, make_room) at e)) (ground (arith, f))
  ]

  -- The recursion over the used slots is the loop of the source: it ends after so many deletions at
  -- most, each round is one of the loop, and when it succeeds, two slots are free.
  pub make_room-loop :
      (s : StorageController I)
      → (make_room I s.used_slots s ≡ loop_round (λ s'. make_room I s'.used_slots s') s)
        × ((s' : StorageController I) → make_room I s.used_slots s ≡ ok s' → 1 < free I s')
  make_room-loop s = (unrolls_at s.used_slots s refl, (λ s'. room_at s.used_slots s s' refl))

-- For a storage in which `n` states fit, and not one more, whatever is left over: below 3 the process
-- ends. With 4 and more, the pool leaves 4 of them free, and has 4 slots at most. With 3, the
-- subtraction wraps, and the pool has 4 slots, more than the storage holds.
pub pool_capacity-slots :
    (n rest size : ℕ)
    → rest < size
    → n * size + rest < 2 ^ 64
    → (n < 3 → pool_capacity (n * size + rest) size ≡ err exit)
      × (3 < n → pool_capacity (n * size + rest) size ≡ ok (min (n - 4) 4))
      × (n ≡ 3 → pool_capacity (n * size + rest) size ≡ ok 4)
unfolding pool_capacity
pool_capacity-slots n rest zero h l = elim h [ ]
pool_capacity-slots n rest (suc size) h l =
    let few : n < 2 ^ 64 = omega (arith, grows n (suc size) (omega arith)) in
    let fits = div_rest n rest (suc size) h in
    (
      (λ k. rw fits (ground (arith, k))),
      (λ k. rw fits (ground (arith, k, few))),
      (λ k. rw (fits, k) refl),
    )
  where
    grows : (n w : ℕ) → 0 < w → n ≤ n * w
    grows n w h = grind arith

    div_rest : (n r w : ℕ) → r < w → (n * w + r) / w ≡ n
    div_rest n r w h = grind arith
