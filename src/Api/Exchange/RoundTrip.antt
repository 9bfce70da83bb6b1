-- ===== src/Api/Exchange/RoundTrip.antt =====
-- api/melissa_da_api.cxx: what a call of `melissa_expose` sends, and what it brings.
use Prim.Native.String.{String}
use text.Mathlib.Text.{◌==◌ as str_eq}
use fugaku_particle_filter.Prelude.{
  ℕ, zero, suc, ◌+◌, ◌<◌, ◌≡◌, refl, sym, ap, ◌∙◌, List, [], ◌∷◌, ◌++◌, some, true, false, Bool,
  arith, ltb, leb, length, drop, length-append, append_assoc, ok, or_fail, out_of_range, Bool-cases,
  inl, inr,
}
use fugaku_particle_filter.Prelude.Int.{ℤ, pos, negsuc, eq_ℤ}
use fugaku_particle_filter.Containers.{slice}
use fugaku_particle_filter.Server.{Content}
use fugaku_particle_filter.Api.{
  ConnectedServerRank, Buffers, Received, Phase, phase_init, phase_simulation, phase_final,
  RequestContent, request_header, request_values, request, Request, RunnerRank, send, read_values,
  read_hidden, put_parts, put_state, get_parts, get_state, first_expose, melissa_expose, is_final,
}
use fugaku_particle_filter.Api.Exchange.{
  Tiles, TilesHidden, AllBring, joined, take-length-append, drop-length-append, got, Left,
  Left-step, get_parts-step, get_parts-joined,
}

-- `v` and `h` have a part of the right size for each connection.
abbrev pub AllSized : (ℕ → List ℕ) → (ℕ → List ℕ) → List ConnectedServerRank → Type 0
AllSized v h [] = Unit {0}
AllSized v h (c ∷ cs) =
    (length (v c.server_rank) ≡ c.send_count)
    × (length (h c.server_rank) ≡ c.send_count_hidden)
    × AllSized v h cs

-- The frames that carry these parts, with the same header to every server rank: a server rank that
-- has hidden values gets them in a frame after the values, and the last frame ends the message.
abbrev pub frames_for :
    RequestContent → (ℕ → List ℕ) → (ℕ → List ℕ) → List ConnectedServerRank → List Request
frames_for request_head v h [] = []
frames_for request_head v h (c ∷ cs) =
    let values_frame = request_values (v c.server_rank) in
    let later = frames_for request_head v h cs in
    request c.server_rank request_head true ∷ elim (c.send_count_hidden) [
      | zero ↦ request c.server_rank values_frame false ∷ later
      | suc _ ↦
          request c.server_rank values_frame true
          ∷ request c.server_rank (request_values (h c.server_rank)) false
          ∷ later
    ]

-- `send` sends one server rank its frames.
send-frames :
    (request_head : RequestContent) (v h : ℕ → List ℕ) (c : ConnectedServerRank)
    (cs : List ConnectedServerRank) (k : ℕ)
    → c.send_count_hidden ≡ k
    → send c request_head (v c.server_rank) (h c.server_rank) ++ frames_for request_head v h cs
      ≡ frames_for request_head v h (c ∷ cs)
unfolding send
send-frames request_head v h c cs zero e = rw e refl
send-frames request_head v h c cs (suc k) e =
    let some_hidden : ltb 0 c.send_count_hidden ≡ true = ground (arith, e) in
    rw (some_hidden, e) refl

pub slice-append :
    (o : ℕ) (done v rest : List ℕ) (n : ℕ)
    → o ≡ length done
    → length v ≡ n
    → slice o n (done ++ (v ++ rest)) ≡ some v
unfolding slice
slice-append o done v rest n e l =
    let all = length-append done (v ++ rest) in
    let inner = length-append v rest in
    let fits : leb (length done + length v) (length (done ++ (v ++ rest))) ≡ true =
      ground (arith, all, inner) in
    let start : drop (length done) (done ++ (v ++ rest)) ≡ v ++ rest =
      ap (λ k. drop k (done ++ (v ++ rest))) (omega arith)
      ∙ drop-length-append 0 done (v ++ rest) in
    rw (e, sym l, fits, start, take-length-append v rest) refl

nothing : (h : List ℕ) (n : ℕ) → length h ≡ n → ltb 0 n ≡ false → h ≡ []
nothing [] n l e = refl
nothing (x ∷ h) n l e = absurd (ground (arith, l, e))

read_hidden-append :
    (c : ConnectedServerRank) (xs hidden_done h rest : List ℕ)
    → (0 < c.send_count_hidden → c.local_vector_offset_hidden ≡ length hidden_done)
    → length h ≡ c.send_count_hidden
    → read_hidden c (record { values = xs; hidden_values = hidden_done ++ (h ++ rest) }) ≡ ok h
unfolding read_hidden
read_hidden-append c xs hidden_done h rest at l = elim (Bool-cases (ltb 0 c.send_count_hidden)) [
  | inl t ↦ rw t (
      ap (or_fail out_of_range) (
        slice-append c.local_vector_offset_hidden hidden_done h rest c.send_count_hidden
          (at (ground (arith, t))) l))
  | inr f ↦ rw (f, nothing h c.send_count_hidden l f) refl
]

put_parts-frames_for :
    (request_head : RequestContent) (v h : ℕ → List ℕ) (cs : List ConnectedServerRank) (n k : ℕ)
    (done hidden_done : List ℕ)
    → AllSized v h cs
    → Tiles (length done) cs n
    → TilesHidden (length hidden_done) cs k
    → put_parts request_head
        (record { values = done ++ joined v cs; hidden_values = hidden_done ++ joined h cs })
        cs
      ≡ ok (frames_for request_head v h cs)
unfolding put_parts read_values read_hidden
put_parts-frames_for request_head v h [] n k done hidden_done a t th = refl
put_parts-frames_for request_head v h (c ∷ cs) n k done hidden_done a t th =
    let vc = v c.server_rank in
    let hc = h c.server_rank in
    let b : Buffers = record {
      values = done ++ (vc ++ joined v cs);
      hidden_values = hidden_done ++ (hc ++ joined h cs);
    } in
    let own : read_values c b ≡ ok vc =
      ap (or_fail out_of_range)
        (slice-append c.local_vector_offset done vc (joined v cs) c.send_count (t.0) (a.0)) in
    let hidden : read_hidden c b ≡ ok hc =
      read_hidden-append c b.values hidden_done hc (joined h cs) (th.0) (a.1) in
    let start : length done + c.send_count ≡ length (done ++ vc) =
      omega (arith, length-append done vc, a.0) in
    let hidden_start : length hidden_done + c.send_count_hidden ≡ length (hidden_done ++ hc) =
      omega (arith, length-append hidden_done hc, a.1) in
    let later =
      put_parts-frames_for request_head v h cs n k (done ++ vc) (hidden_done ++ hc) (a.2)
        (rw start at t.1) (rw hidden_start at th.1) in
    rw
      (
        own,
        hidden,
        rw (append_assoc done vc (joined v cs), append_assoc hidden_done hc (joined h cs)) at later,
      )
      (ap ok (send-frames request_head v h c cs c.send_count_hidden refl))

-- What a call leaves: the frames have been sent, and the rank has the next state.
pub record Exchanged (state_id step : ℤ) (frames : List Request) (r r' : RunnerRank) : Type 0 where
  pub simulates : r'.phase ≡ phase_simulation
  pub sent_after : r'.sent ≡ r.sent ++ frames
  pub state_is : r'.field.current_state_id ≡ state_id
  pub step_is : r'.field.current_step ≡ step
  pub connected_same : r'.field.connected_server_ranks ≡ r.field.connected_server_ranks

pub begins :
    (r : RunnerRank) (p : Phase)
    → r.phase ≡ p
    → is_final p ≡ false
    → (b : Bool) × (first_expose r ≡ record r { phase = phase_simulation; ccon = b })
unfolding first_expose
begins r phase_init e alive = (false, rw e refl)
begins r phase_simulation e alive = (r.ccon, rw e refl)
begins r phase_final e alive = cc

get_parts-all :
    (inbox : ℕ → List Content) (state_id step nsteps : ℤ) (v h : ℕ → List ℕ)
    (c : ConnectedServerRank) (cs : List ConnectedServerRank) (acc : Received) (xs hs : List ℕ)
    → AllBring inbox state_id step nsteps v h (c ∷ cs)
    → Tiles 0 (c ∷ cs) (length xs)
    → TilesHidden 0 (c ∷ cs) (length hs)
    → acc.nsteps ≡ negsuc 0
    → acc.buffers ≡ record { values = xs; hidden_values = hs }
    → get_parts phase_simulation inbox (c ∷ cs) acc
      ≡ ok (
          got state_id step nsteps
            (record { values = joined v (c ∷ cs); hidden_values = joined h (c ∷ cs) }))
get_parts-all inbox state_id step nsteps v h c cs acc xs hs a t th first b =
    let vc = v c.server_rank in
    let hc = h c.server_rank in
    let whole : length xs ≡ 0 + length xs = omega arith in
    let hidden_whole : length hs ≡ 0 + length hs = omega arith in
    let left : Left (c ∷ cs) [] xs [] hs = (rw whole at t, rw hidden_whole at th) in
    let (_, _, left') = Left-step c cs vc hc [] xs [] hs (a.1) (a.2) left in
    get_parts-step inbox state_id step nsteps v h c cs acc [] xs [] hs a left (rw first refl) b
    ∙ get_parts-joined inbox state_id step nsteps v h cs vc (drop (length vc) xs) hc
        (drop (length hc) hs) (a.3) left'

-- A runner rank that has not ended exposes vectors of which `v` and `h` are the parts for its server
-- ranks, one after the other, and every server rank answers with a part, of the same size, of one state
-- and with at least one step to go. Then the call succeeds, the parts are sent under the old state, and
-- the vectors are the new parts, one after the other.
pub melissa_expose-Exchanged :
    (r : RunnerRank) (field_name : String) (inbox : ℕ → List Content) (state_id step : ℤ) (n : ℕ)
    (v h v' h' : ℕ → List ℕ) (c : ConnectedServerRank) (cs : List ConnectedServerRank)
    → is_final r.phase ≡ false
    → str_eq (r.field.name) field_name ≡ true
    → r.field.connected_server_ranks ≡ c ∷ cs
    → Tiles 0 (c ∷ cs) (length (joined v (c ∷ cs)))
    → TilesHidden 0 (c ∷ cs) (length (joined h (c ∷ cs)))
    → AllSized v h (c ∷ cs)
    → AllBring inbox state_id step (pos (suc n)) v' h' (c ∷ cs)
    → (r' : RunnerRank) × (melissa_expose field_name inbox
          (record { values = joined v (c ∷ cs); hidden_values = joined h (c ∷ cs) })
          r
        ≡ ok (
          pos (suc n),
          record { values = joined v' (c ∷ cs); hidden_values = joined h' (c ∷ cs) },
          r',
        ))
      × Exchanged state_id step
          (frames_for
            (request_header r.runner_id r.comm_rank r.field.current_state_id r.field.current_step
              field_name)
            v
            h
            (c ∷ cs))
          r
          r'
unfolding melissa_expose put_state get_state first_expose
melissa_expose-Exchanged r field_name inbox state_id step n v h v' h' c cs alive same to t th a
      brings =
    let vec : Buffers = record { values = joined v (c ∷ cs); hidden_values = joined h (c ∷ cs) } in
    let head =
      request_header r.runner_id r.comm_rank r.field.current_state_id r.field.current_step
        field_name in
    let (b, begun) = begins r r.phase refl alive in
    let put = put_parts-frames_for head v h (c ∷ cs) _ _ [] [] a t th in
    let acc : Received = record {
      current_state_id = negsuc 0;
      current_step = r.field.current_step;
      nsteps = negsuc 0;
      buffers = vec;
    } in
    let get =
      get_parts-all inbox state_id step (pos (suc n)) v' h' c cs acc vec.values vec.hidden_values
        brings t th refl refl in
    let goes_on : eq_ℤ (pos (suc n)) (pos 0) ≡ false = ground arith in
    (
      record r {
        phase = phase_simulation;
        ccon = b;
        sent = r.sent ++ frames_for head v h (c ∷ cs);
        field = record (r.field) { current_state_id = state_id; current_step = step };
      },
      rw (alive, begun, same, to, put, get) (ground (arith, goes_on)),
      record {
        simulates = refl;
        sent_after = refl;
        state_is = refl;
        step_is = refl;
        connected_same = refl;
      },
    )
