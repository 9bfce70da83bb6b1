-- ===== src/Api/Ending.antt =====
-- api/melissa_da_api.cxx: how a runner ends, when the server tells it to.
use Prim.Native.String.{String}
use text.Mathlib.Text.{◌==◌ as str_eq}
use fugaku_particle_filter.Prelude.{
  ℕ, ◌<◌, ◌≡◌, refl, ap, ◌∙◌, ◌⊎◌, inl, inr, List, [], ◌∷◌, ◌++◌, true, false, arith, ◌==◌, not, ok,
  err, assertion, length, ltb, ok_inj, >>=-eq-ok, check-inv, subst,
}
use fugaku_particle_filter.Prelude.Int.{ℤ, pos, negsuc}
use fugaku_particle_filter.Server.{Content, header, values, change_state, end_runner}
use fugaku_particle_filter.Api.Exchange.{state_message}
use fugaku_particle_filter.Api.Exchange.RoundTrip.{begins}
use fugaku_particle_filter.Api.{
  ConnectedServerRank, Buffers, Received, phase_simulation, phase_final, RunnerRank, receive,
  put_state, get_parts, get_state, melissa_finalize, melissa_expose, is_final, receive_values,
  copy_in, request_header, put_parts, Request, melissa_get_current_state_id,
  melissa_get_current_step,
}

-- Every connection brings the end of the runner.
abbrev pub AllEnd : (ℕ → List Content) → ℤ → List ConnectedServerRank → Type 0
AllEnd inbox step [] = Unit {0}
AllEnd inbox step (c ∷ cs) =
    (inbox c.server_rank ≡ header (negsuc 0) step end_runner (pos 0) ∷ []) × AllEnd inbox step cs

abbrev ended : ℤ → Buffers → Received
ended step b = record {
  current_state_id = negsuc 0;
  current_step = step;
  nsteps = pos 0;
  buffers = b;
}

get_parts-ended :
    (inbox : ℕ → List Content) (step : ℤ) (cs : List ConnectedServerRank) (b : Buffers)
    → AllEnd inbox step cs
    → get_parts phase_simulation inbox cs (ended step b) ≡ ok (ended step b)
unfolding get_parts receive
get_parts-ended inbox step [] b a = refl
get_parts-ended inbox step (c ∷ cs) b a = rw (a.0) (get_parts-ended inbox step cs b a.1)

-- A rank of a runner that has ended: the connections are closed, and the vectors can be exposed no more.
pub record Ended (r : RunnerRank) : Type 0 where
  pub phase_is : r.phase ≡ phase_final
  pub no_ranks : r.ranks ≡ []
  pub no_ccon : r.ccon ≡ false
  pub no_state : melissa_get_current_state_id r ≡ negsuc 1
  pub no_step : melissa_get_current_step r ≡ err assertion
  pub no_more :
      (field_name : String) (inbox : ℕ → List Content) (b : Buffers)
      → melissa_expose field_name inbox b r ≡ err assertion

melissa_finalize-Ended : (r : RunnerRank) → Ended (melissa_finalize r)
unfolding melissa_finalize melissa_expose melissa_get_current_state_id melissa_get_current_step
melissa_finalize-Ended r = record {
  phase_is = refl;
  no_ranks = refl;
  no_ccon = refl;
  no_state = refl;
  no_step = refl;
  no_more = λ field_name inbox b. refl;
}

-- A runner rank that has not ended exposes vectors that can be sent, and every server rank that it is
-- connected to, of which there is one at least, tells it to end. Then the call returns 0 steps, the
-- vectors are as they were, and the rank has ended: every later call of `melissa_expose` fails an
-- assertion.
pub melissa_expose-Ended :
    (r : RunnerRank) (field_name : String) (inbox : ℕ → List Content) (b : Buffers) (step : ℤ)
    (frames : List Request) (c : ConnectedServerRank) (cs : List ConnectedServerRank)
    → is_final r.phase ≡ false
    → str_eq (r.field.name) field_name ≡ true
    → r.field.connected_server_ranks ≡ c ∷ cs
    → put_parts
        (request_header r.runner_id r.comm_rank r.field.current_state_id r.field.current_step
          field_name)
        b
        (c ∷ cs)
      ≡ ok frames
    → AllEnd inbox step (c ∷ cs)
    → (r' : RunnerRank) × (melissa_expose field_name inbox b r ≡ ok (pos 0, b, r')) × Ended r'
unfolding melissa_expose put_state get_state get_parts receive
melissa_expose-Ended r field_name inbox b step frames c cs alive same to put ends =
    let (cc_after, begun) = begins r r.phase refl alive in
    let last : RunnerRank = record r {
      phase = phase_simulation;
      ccon = cc_after;
      sent = r.sent ++ frames;
      field = record (r.field) { current_state_id = negsuc 0; current_step = step };
    } in
    (
      melissa_finalize last,
      rw (alive, begun, same, to, put, ends.0) (rw (get_parts-ended inbox step cs b ends.1) refl),
      melissa_finalize-Ended last,
    )

-- A message with a part of a state, of the sizes of the connection, and what comes of it.
pub record IsState (c : ConnectedServerRank) (message : List Content) (b : Buffers) (out : Received)
    : Type 0 where
  pub v : List ℕ
  pub h : List ℕ
  pub message_is : message ≡ state_message out.current_state_id out.current_step out.nsteps v h
  pub size : length v ≡ c.send_count
  pub size_hidden : length h ≡ c.send_count_hidden
  pub written : copy_in c.local_vector_offset v b.values ≡ ok out.buffers.values
  pub written_hidden :
      (h ≡ [])
      ⊎ (copy_in c.local_vector_offset_hidden h b.hidden_values ≡ ok out.buffers.hidden_values)

-- A message that ends the runner: no steps to go, and the vectors are as they were.
pub record IsEnd (message : List Content) (b : Buffers) (out : Received) : Type 0 where
  pub nsteps : ℤ
  pub frames : List Content
  pub message_is : message ≡ header out.current_state_id out.current_step end_runner nsteps ∷ frames
  pub no_steps : out.nsteps ≡ pos 0
  pub same : out.buffers ≡ b

with_hidden :
    (state_id step nsteps : ℤ) (v h : List ℕ)
    → 0 < length h
    → header state_id step change_state nsteps ∷ (values v ∷ (values h ∷ []))
      ≡ state_message state_id step nsteps v h
with_hidden state_id step nsteps v [] e = elim e [ ]
with_hidden state_id step nsteps v (x ∷ h) e = refl

receive_values-IsState :
    (c : ConnectedServerRank) (state_id step nsteps : ℤ) (frames : List Content) (b new : Buffers)
    → receive_values c frames b ≡ ok new
    → IsState c (header state_id step change_state nsteps ∷ frames) b (record {
      current_state_id = state_id;
      current_step = step;
      nsteps = nsteps;
      buffers = new;
    })
unfolding receive_values
receive_values-IsState c state_id step nsteps (values v ∷ []) b new e =
    let (size, e1) = check-inv (length v == c.send_count) _ e in
    let (xs, written, e2) = >>=-eq-ok (copy_in c.local_vector_offset v b.values) _ e1 in
    let (no_hidden, e3) = check-inv (not (ltb 0 c.send_count_hidden)) _ e2 in
    let out = ok_inj _ new e3 in
    record {
      v = v;
      h = [];
      message_is = refl;
      size = ground (arith, size);
      size_hidden = ground (arith, no_hidden);
      written = written ∙ ap (λ x. ok (x.values)) out;
      written_hidden = inl refl;
    }
receive_values-IsState c state_id step nsteps (values v ∷ (values h ∷ [])) b new e =
    let (size, e1) = check-inv (length v == c.send_count) _ e in
    let (xs, written, e2) = >>=-eq-ok (copy_in c.local_vector_offset v b.values) _ e1 in
    let (some_hidden, e3) = check-inv (ltb 0 c.send_count_hidden) _ e2 in
    let (size_hidden, e4) = check-inv (length h == c.send_count_hidden) _ e3 in
    let (hs, written_hidden, e5) =
      >>=-eq-ok (copy_in c.local_vector_offset_hidden h b.hidden_values) _ e4 in
    let out = ok_inj _ new e5 in
    record {
      v = v;
      h = h;
      message_is = with_hidden state_id step nsteps v h (ground (arith, some_hidden, size_hidden));
      size = ground (arith, size);
      size_hidden = ground (arith, size_hidden);
      written = written ∙ ap (λ x. ok (x.values)) out;
      written_hidden = inr (written_hidden ∙ ap (λ x. ok (x.hidden_values)) out);
    }
receive_values-IsState c state_id step nsteps _ b new e = cc

-- Nothing but a part of a state, of the sizes of the connection, or an end of the runner is accepted
-- from a server rank. A part is written where the connection has its place, an end changes nothing.
pub receive-accepts :
    (c : ConnectedServerRank) (message : List Content) (b : Buffers) (out : Received)
    → receive c message b ≡ ok out
    → IsState c message b out ⊎ IsEnd message b out
unfolding receive
receive-accepts c (header state_id step change_state nsteps ∷ frames) b out e =
    let (new, done, e1) = >>=-eq-ok (receive_values c frames b) _ e in
    inl (
      subst (IsState c _ b) (ok_inj _ out e1)
        (receive_values-IsState c state_id step nsteps frames b new done))
receive-accepts c (header state_id step end_runner nsteps ∷ frames) b out e = inr (
    subst (IsEnd _ b) (ok_inj _ out e) (record {
      nsteps = nsteps;
      frames = frames;
      message_is = refl;
      no_steps = refl;
      same = refl;
    }))
receive-accepts c _ b out e = cc
