-- ===== src/Api/Exchange.antt =====
-- api/api_common.cxx: `Field::putState` and `Field::getState` over all connections of a runner rank, and
-- the vectors of the model as wholes.
pub mod RoundTrip
use fugaku_particle_filter.Prelude.{
  ℕ, zero, suc, ◌+◌, ◌-◌, ◌≤◌, ◌<◌, ◌≡◌, refl, sym, ap, ap₂, ◌∙◌, ◌⊎◌, inl, inr, List, [], ◌∷◌,
  ◌++◌, some, true, false, arith, ltb, leb, ◌==◌, ◌||◌, if◌then◌else◌, length, take, drop,
  length-append, length-drop, length_zero, append_assoc, append-nil, ok, check, Result, ◌>>=◌, ◌>>◌,
  not, Bool-cases,
}
use fugaku_particle_filter.Prelude.Int.{ℤ, pos, negsuc, eq_ℤ}
use fugaku_particle_filter.Containers.{overwrite}
use fugaku_particle_filter.Server.{Content, header, values, change_state}
use fugaku_particle_filter.Api.{
  ConnectedServerRank, Buffers, Received, Phase, phase_simulation, copy_in, receive_values, receive,
  get_parts,
}

-- From offset `o` on, the parts of the connections follow one another up to offset `n`.
abbrev pub Tiles : ℕ → List ConnectedServerRank → ℕ → Type 0
Tiles o [] n = o ≡ n
Tiles o (c ∷ cs) n = (c.local_vector_offset ≡ o) × Tiles (o + c.send_count) cs n

-- The same for the hidden parts, of which an empty one may lie anywhere.
abbrev pub TilesHidden : ℕ → List ConnectedServerRank → ℕ → Type 0
TilesHidden o [] n = o ≡ n
TilesHidden o (c ∷ cs) n =
    (0 < c.send_count_hidden → c.local_vector_offset_hidden ≡ o)
    × TilesHidden (o + c.send_count_hidden) cs n

-- A state as a server rank sends it, behind the identity and the empty frame.
abbrev pub state_message : ℤ → ℤ → ℤ → List ℕ → List ℕ → List Content
state_message state_id step nsteps v [] = header state_id step change_state nsteps ∷ (values v ∷ [])
state_message state_id step nsteps v (x ∷ h) =
    header state_id step change_state nsteps ∷ (values v ∷ (values (x ∷ h) ∷ []))

-- Every connection brings a part of the state `state_id`, of the size of the connection; `v` and `h` are
-- the parts from each server rank.
abbrev pub AllBring :
    (ℕ → List Content) → ℤ → ℤ → ℤ → (ℕ → List ℕ) → (ℕ → List ℕ) → List ConnectedServerRank → Type 0
AllBring inbox state_id step nsteps v h [] = Unit {0}
AllBring inbox state_id step nsteps v h (c ∷ cs) =
    (inbox c.server_rank ≡ state_message state_id step nsteps (v c.server_rank) (h c.server_rank))
    × (length (v c.server_rank) ≡ c.send_count)
    × (length (h c.server_rank) ≡ c.send_count_hidden)
    × AllBring inbox state_id step nsteps v h cs

-- The parts one after the other, in the order of the connections.
abbrev pub joined : (ℕ → List ℕ) → List ConnectedServerRank → List ℕ
joined v [] = []
joined v (c ∷ cs) = v c.server_rank ++ joined v cs

pub take-length-append : (xs ys : List ℕ) → take (length xs) (xs ++ ys) ≡ xs
take-length-append [] ys = refl
take-length-append (x ∷ xs) ys = ap (λ l. x ∷ l) (take-length-append xs ys)

pub drop-length-append : (n : ℕ) (xs ys : List ℕ) → drop (length xs + n) (xs ++ ys) ≡ drop n ys
drop-length-append n [] ys = ap (λ k. drop k ys) (omega arith)
drop-length-append n (x ∷ xs) ys =
    let e : suc (length xs) + n ≡ suc (length xs + n) = omega arith in
    rw e (drop-length-append n xs ys)

-- Writing a part behind what has been written.
pub copy_in-append :
    (o : ℕ) (v done todo : List ℕ)
    → length done ≡ o
    → length v ≤ length todo
    → copy_in o v (done ++ todo) ≡ ok ((done ++ v) ++ drop (length v) todo)
unfolding copy_in overwrite
copy_in-append o v done todo e h =
    let fits : leb (length done + length v) (length (done ++ todo)) ≡ true =
      ground (arith, length-append done todo) in
    rw (sym e) (
      rw fits (
        ap ok (
          ap₂ (λ a b. a ++ (v ++ b)) (take-length-append done todo)
            (drop-length-append (length v) done todo)
          ∙ sym (append_assoc done v (drop (length v) todo)))))

-- What the vectors are, while the parts up to `done` and `hidden_done` have been written.
abbrev pub buffers_at : List ℕ → List ℕ → List ℕ → List ℕ → Buffers
buffers_at done todo hidden_done hidden_todo = record {
  values = done ++ todo;
  hidden_values = hidden_done ++ hidden_todo;
}

abbrev pub got : ℤ → ℤ → ℤ → Buffers → Received
got state_id step nsteps b = record {
  current_state_id = state_id;
  current_step = step;
  nsteps = nsteps;
  buffers = b;
}

receive-state_message :
    (c : ConnectedServerRank) (state_id step nsteps : ℤ)
    (v h done todo hidden_done hidden_todo : List ℕ)
    → length v ≡ c.send_count
    → length h ≡ c.send_count_hidden
    → c.local_vector_offset ≡ length done
    → (0 < c.send_count_hidden → c.local_vector_offset_hidden ≡ length hidden_done)
    → length v ≤ length todo
    → length h ≤ length hidden_todo
    → receive c
        (state_message state_id step nsteps v h)
        (buffers_at done todo hidden_done hidden_todo)
      ≡ ok (
          got state_id step nsteps (
            buffers_at
              (done ++ v)
              (drop (length v) todo)
              (hidden_done ++ h)
              (drop (length h) hidden_todo)))
unfolding receive receive_values
receive-state_message c state_id step nsteps v [] done todo hidden_done hidden_todo lv lh ov oh fv
      fh =
    let count : (length v == c.send_count) ≡ true = ground (arith, lv) in
    let no_hidden : ltb 0 c.send_count_hidden ≡ false = ground (arith, lh) in
    rw (count, no_hidden, copy_in-append c.local_vector_offset v done todo (sym ov) fv)
      (rw (append-nil hidden_done) refl)
receive-state_message c state_id step nsteps v (x ∷ h) done todo hidden_done hidden_todo lv lh ov oh
      fv fh =
    let count : (length v == c.send_count) ≡ true = ground (arith, lv) in
    let hidden : ltb 0 c.send_count_hidden ≡ true = ground (arith, lh) in
    let hidden_count : (length (x ∷ h) == c.send_count_hidden) ≡ true = ground (arith, lh) in
    rw
      (
        count,
        hidden,
        hidden_count,
        copy_in-append c.local_vector_offset v done todo (sym ov) fv,
        copy_in-append c.local_vector_offset_hidden (x ∷ h) hidden_done hidden_todo
            (sym (oh (omega (arith, lh)))) fh,
      )
      refl

pub eq_ℤ-self : (a : ℤ) → eq_ℤ a a ≡ true
eq_ℤ-self (pos a) = ground arith
eq_ℤ-self (negsuc a) = ground arith

-- The sizes of what is left to write, where it is just what the connections are for.
abbrev pub Left : List ConnectedServerRank → List ℕ → List ℕ → List ℕ → List ℕ → Type 0
Left cs done todo hidden_done hidden_todo =
    Tiles (length done) cs (length done + length todo)
    × TilesHidden (length hidden_done) cs (length hidden_done + length hidden_todo)

Tiles-le : (o n : ℕ) (cs : List ConnectedServerRank) → Tiles o cs n → o ≤ n
Tiles-le o n [] t = omega (arith, t)
Tiles-le o n (c ∷ cs) t = omega (arith, Tiles-le (o + c.send_count) n cs t.1)

TilesHidden-le : (o n : ℕ) (cs : List ConnectedServerRank) → TilesHidden o cs n → o ≤ n
TilesHidden-le o n [] t = omega (arith, t)
TilesHidden-le o n (c ∷ cs) t = omega (arith, TilesHidden-le (o + c.send_count_hidden) n cs t.1)

-- The vectors, once the part from the first connection has been written.
pub Left-step :
    (c : ConnectedServerRank) (cs : List ConnectedServerRank)
    (v h done todo hidden_done hidden_todo : List ℕ)
    → length v ≡ c.send_count
    → length h ≡ c.send_count_hidden
    → Left (c ∷ cs) done todo hidden_done hidden_todo
    → (length v ≤ length todo)
      × (length h ≤ length hidden_todo)
      × Left cs (done ++ v) (drop (length v) todo) (hidden_done ++ h) (drop (length h) hidden_todo)
Left-step c cs v h done todo hidden_done hidden_todo lv lh (t, th) =
    let room = Tiles-le (length done + c.send_count) _ cs t.1 in
    let hidden_room = TilesHidden-le (length hidden_done + c.send_count_hidden) _ cs th.1 in
    let grown = length-append done v in
    let hidden_grown = length-append hidden_done h in
    let shrunk = length-drop (length v) todo in
    let hidden_shrunk = length-drop (length h) hidden_todo in
    let end : length (done ++ v) + length (drop (length v) todo) ≡ length done + length todo =
      omega arith in
    let hidden_end : length (hidden_done ++ h) + length (drop (length h) hidden_todo)
        ≡ length hidden_done + length hidden_todo =
      omega arith in
    let start : length done + c.send_count ≡ length (done ++ v) = omega arith in
    let hidden_start : length hidden_done + c.send_count_hidden ≡ length (hidden_done ++ h) =
      omega arith in
    (omega arith, omega arith, rw (end, hidden_end, sym start, sym hidden_start) (t.1, th.1))

pub get_parts-step :
    (inbox : ℕ → List Content) (state_id step nsteps : ℤ) (v h : ℕ → List ℕ)
    (c : ConnectedServerRank) (cs : List ConnectedServerRank) (acc : Received)
    (done todo hidden_done hidden_todo : List ℕ)
    → AllBring inbox state_id step nsteps v h (c ∷ cs)
    → Left (c ∷ cs) done todo hidden_done hidden_todo
    → (eq_ℤ acc.nsteps (negsuc 0) || eq_ℤ acc.nsteps nsteps) ≡ true
    → acc.buffers ≡ buffers_at done todo hidden_done hidden_todo
    → get_parts phase_simulation inbox (c ∷ cs) acc
      ≡ get_parts phase_simulation inbox cs (
          got state_id step nsteps (
            buffers_at
              (done ++ v c.server_rank)
              (drop (length (v c.server_rank)) todo)
              (hidden_done ++ h c.server_rank)
              (drop (length (h c.server_rank)) hidden_todo)))
unfolding get_parts
get_parts-step inbox state_id step nsteps v h c cs acc done todo hidden_done hidden_todo a left i
      b =
    let (fits, hidden_fits, _) =
      Left-step c cs (v c.server_rank) (h c.server_rank) done todo hidden_done hidden_todo (a.1)
        (a.2) left in
    rw
      (
        b,
        a.0,
        receive-state_message c state_id step nsteps (v c.server_rank) (h c.server_rank) done todo
            hidden_done hidden_todo (a.1) (a.2) (left.0.0) (left.1.0) fits hidden_fits,
        i,
      )
      refl

pub get_parts-joined :
    (inbox : ℕ → List Content) (state_id step nsteps : ℤ) (v h : ℕ → List ℕ)
    (cs : List ConnectedServerRank) (done todo hidden_done hidden_todo : List ℕ)
    → AllBring inbox state_id step nsteps v h cs
    → Left cs done todo hidden_done hidden_todo
    → get_parts phase_simulation inbox cs
        (got state_id step nsteps (buffers_at done todo hidden_done hidden_todo))
      ≡ ok (
          got state_id step nsteps
            (record { values = done ++ joined v cs; hidden_values = hidden_done ++ joined h cs }))
unfolding get_parts
get_parts-joined inbox state_id step nsteps v h [] done todo hidden_done hidden_todo a left =
    rw (length_zero todo (omega (arith, left.0)), length_zero hidden_todo (omega (arith, left.1)))
      refl
get_parts-joined inbox state_id step nsteps v h (c ∷ cs) done todo hidden_done hidden_todo a left =
    let vc = v c.server_rank in
    let hc = h c.server_rank in
    let (_, _, left') = Left-step c cs vc hc done todo hidden_done hidden_todo (a.1) (a.2) left in
    let agreed : (eq_ℤ nsteps (negsuc 0) || eq_ℤ nsteps nsteps) ≡ true =
      rw (eq_ℤ-self nsteps) (ground arith) in
    get_parts-step inbox state_id step nsteps v h c cs
      (got state_id step nsteps (buffers_at done todo hidden_done hidden_todo)) done todo
      hidden_done hidden_todo a left agreed refl
    ∙ get_parts-joined inbox state_id step nsteps v h cs (done ++ vc) (drop (length vc) todo)
        (hidden_done ++ hc) (drop (length hc) hidden_todo) (a.3) left'
    ∙ rw (append_assoc done vc (joined v cs), append_assoc hidden_done hc (joined h cs)) refl
