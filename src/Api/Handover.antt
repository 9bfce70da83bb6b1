-- ===== src/Api/Handover.antt =====
-- server/server.cxx and api/api_common.cxx together: what one side sends is what the other side expects.
use fugaku_particle_filter.Prelude.{
  ℕ, ◌+◌, ◌≤◌, ◌<◌, ◌≡◌, refl, sym, ap, ◌∙◌, ◌⊎◌, inl, inr, List, [], ◌∷◌, Option, some, none, true,
  false, arith, ltb, ◌==◌, length, length-take, length-drop, ok, or_fail, out_of_range, Bool-cases,
  ok_inj, >>=-eq-ok, or_fail-inv, drop,
}
use fugaku_particle_filter.Prelude.Int.{ℤ, pos}
use fugaku_particle_filter.Containers.{slice, overwrite}
use fugaku_particle_filter.Part.{Part}
use fugaku_particle_filter.Server.{
  Config, Server, Content, identity, empty, header, values, change_state,
}
use fugaku_particle_filter.Server.Connections.{launch_sub_task, hidden_values}
use fugaku_particle_filter.Server.Connections.Frames.{
  Launched, messages, hidden_contents, launch_sub_task-one_message,
}
use fugaku_particle_filter.Api.{ConnectedServerRank, Buffers, receive, receive_values, copy_in}
use fugaku_particle_filter.Api.Connections.Met.{Met}

slice-length : (o n : ℕ) (xs v : List ℕ) → slice o n xs ≡ some v → length v ≡ n
unfolding slice
slice-length o n xs v e = ground (arith, e, length-take n (drop o xs), length-drop o xs)

pub copy_in-fits :
    (o : ℕ) (v xs : List ℕ) → o + length v ≤ length xs → copy_in o v xs ≡ ok (overwrite o v xs)
unfolding copy_in
copy_in-fits o v xs h = ground arith

-- The hidden part that goes out: none where it is empty, and otherwise of its size.
hidden_values-size :
    (p : Part) (xs : List ℕ) (h : Option (List ℕ))
    → hidden_values p xs ≡ ok h
    → ((h ≡ none) × (p.send_count ≡ 0))
      ⊎ ((v : List ℕ) × (h ≡ some v) × (length v ≡ p.send_count) × (0 < p.send_count))
unfolding hidden_values
hidden_values-size p xs h e = elim (Bool-cases (ltb 0 p.send_count)) [
  | inl t ↦
      let (v, sliced, is) =
        >>=-eq-ok (or_fail out_of_range (slice p.local_offset_server p.send_count xs)) _
          (rw (t, hidden_values) at e) in
      inr (
        v,
        sym (ok_inj _ h is),
        slice-length p.local_offset_server p.send_count xs v (or_fail-inv _ _ v sliced),
        ground (arith, t),
      )
  | inr f ↦ inl (sym (ok_inj none h (rw (f, hidden_values) at e)), ground (arith, f))
]

-- What a runner rank has after it has taken in `v` and `h`.
abbrev pub written : ConnectedServerRank → List ℕ → Option (List ℕ) → Buffers → Buffers
written csr v none b = record b { values = overwrite csr.local_vector_offset v b.values }
written csr v (some h) b = record {
  values = overwrite csr.local_vector_offset v b.values;
  hidden_values = overwrite csr.local_vector_offset_hidden h b.hidden_values;
}

-- The place of a connection is inside the vectors of the model.
pub record IsInside (csr : ConnectedServerRank) (b : Buffers) : Type 0 where
  pub values_inside : csr.local_vector_offset + csr.send_count ≤ length b.values
  pub hidden_inside :
      0 < csr.send_count_hidden
      → csr.local_vector_offset_hidden + csr.send_count_hidden ≤ length b.hidden_values

receive-written :
    (csr : ConnectedServerRank) (b : Buffers) (state_id step nsteps : ℤ) (v : List ℕ)
    (h : Option (List ℕ))
    → IsInside csr b
    → length v ≡ csr.send_count
    → ((h ≡ none) × (csr.send_count_hidden ≡ 0))
      ⊎ ((w : List ℕ) × (h ≡ some w)
          × (length w ≡ csr.send_count_hidden)
          × (0 < csr.send_count_hidden))
    → receive csr (header state_id step change_state nsteps ∷ (values v ∷ hidden_contents h)) b
      ≡ ok (record {
        current_state_id = state_id;
        current_step = step;
        nsteps = nsteps;
        buffers = written csr v h b;
      })
unfolding receive receive_values
receive-written csr b state_id step nsteps v h i l (inl (no_h, zero_h)) =
    let size : (length v == csr.send_count) ≡ true = ground (arith, l) in
    let no_hidden : ltb 0 csr.send_count_hidden ≡ false = ground (arith, zero_h) in
    rw
      (
        no_h,
        size,
        no_hidden,
        copy_in-fits csr.local_vector_offset v b.values (omega (arith, i.values_inside, l)),
      )
      refl
receive-written csr b state_id step nsteps v h i l (inr (w, some_w, l_w, more)) =
    let size : (length v == csr.send_count) ≡ true = ground (arith, l) in
    let hidden : ltb 0 csr.send_count_hidden ≡ true = ground (arith, more) in
    let size_hidden : (length w == csr.send_count_hidden) ≡ true = ground (arith, l_w) in
    rw
      (
        some_w,
        size,
        hidden,
        size_hidden,
        copy_in-fits csr.local_vector_offset v b.values (omega (arith, i.values_inside, l)),
        copy_in-fits csr.local_vector_offset_hidden w b.hidden_values
            (omega (arith, i.hidden_inside more, l_w)),
      )
      refl

-- A message of the server rank, and how the runner rank takes it in.
pub record Delivered (c : Config) (id : List ℕ) (runner_rank state_id : ℕ) (s s' : Server)
    (csr : ConnectedServerRank) (b : Buffers) : Type 0 where
  pub launched : Launched c id runner_rank state_id s s'
  pub message : List Content
  pub routed : messages [] launched.frames ≡ (identity id ∷ (empty ∷ message)) ∷ []
  pub received :
      receive csr message b
      ≡ ok (record {
        current_state_id = pos state_id;
        current_step = s.current_step;
        nsteps = s.current_nsteps;
        buffers = written csr launched.data_msg launched.data_msg_hidden b;
      })

-- A server rank launches a sub task, on a connection with an identity, for a runner rank that has the
-- same part between the two, with its place inside its vectors. Then one message goes out to that
-- identity, and what follows the empty frame is accepted by the runner rank: it has the id of the
-- state, the step and the number of steps of the server rank, and the part of the analysis state, and
-- that of the hidden state where there is one, at the place of the connection.
pub launch_sub_task-Delivered :
    (c : Config) (id : List ℕ) (runner_rank state_id : ℕ) (s s' : Server)
    (csr : ConnectedServerRank) (b : Buffers)
    → Met c.comm_rank s.field runner_rank csr
    → IsInside csr b
    → launch_sub_task c (some id) runner_rank state_id s ≡ ok s'
    → Delivered c id runner_rank state_id s s' csr b
launch_sub_task-Delivered c id runner_rank state_id s s' csr b met inside done =
    let l = launch_sub_task-one_message c id runner_rank state_id s s' done in
    let same = ok_inj l.part met.part (sym l.part_of ∙ met.part_of) in
    let same_hidden =
      ok_inj l.hidden_part met.hidden_part (sym l.hidden_part_of ∙ met.hidden_part_of) in
    let size : csr.send_count ≡ l.part.send_count = met.size ∙ sym (ap (λ x. x.send_count) same) in
    let size_hidden : csr.send_count_hidden ≡ l.hidden_part.send_count =
      met.size_hidden ∙ sym (ap (λ x. x.send_count) same_hidden) in
    record {
      launched = l;
      message =
          header (pos state_id) s.current_step change_state s.current_nsteps
          ∷ (values l.data_msg ∷ hidden_contents l.data_msg_hidden);
      routed = l.one_message;
      received =
          receive-written csr b (pos state_id) s.current_step s.current_nsteps l.data_msg
            l.data_msg_hidden inside
            (slice-length l.part.local_offset_server l.part.send_count l.member.state_analysis
                l.data_msg l.data_of
              ∙ sym size)
            (rw (sym size_hidden) at (
              hidden_values-size l.hidden_part l.member.state_hidden l.data_msg_hidden
                l.hidden_of));
    }
