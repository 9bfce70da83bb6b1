-- ===== src/Field/Members.antt =====
-- server/EnsembleMember.cxx and server/Field.h: what storing a part leaves in the ensemble.
use fugaku_particle_filter.Prelude.{
  or_fail-inv, ℕ, zero, suc, ◌+◌, ◌≤◌, ◌<◌, ◌≡◌, ◌≢◌, refl, ap, ◌∙◌, ◌⊎◌, List, [], ◌∷◌, ◌++◌,
  Option, none, some, arith, leb, ltb, ◌-◌, ◌&&◌, subst, ok_inj, ◌==◌, ◌||◌, if◌then◌else◌, length,
  take, drop, get_elem?, ok, or_fail, >>=-eq-ok, check-inv, out_of_range, length-append,
  length-take, length-drop, get_elem?-set_self, get_elem?-set_ne,
}
use fugaku_particle_filter.Containers.{slice, overwrite}
use fugaku_particle_filter.Part.{Part}
use fugaku_particle_filter.Field.{
  EnsembleMember, Field, pointee, store_background_state_part, store_part, is_some,
}

pub get_elem?-overwrite :
    (o i : ℕ) (vs xs : List ℕ)
    → o + length vs ≤ length xs
    → get_elem? (overwrite o vs xs) i
      ≡ (if leb o i && ltb i (o + length vs) then get_elem? vs (i - o) else get_elem? xs i)
unfolding overwrite
get_elem?-overwrite zero i [] xs h = ground arith
get_elem?-overwrite zero i (v ∷ vs) [] h = absurd (omega arith)
get_elem?-overwrite zero zero (v ∷ vs) (x ∷ xs) h = ground arith
get_elem?-overwrite zero (suc i) (v ∷ vs) (x ∷ xs) h =
    let e : 0 + length (v ∷ vs) ≡ suc (0 + length vs) = omega arith in
    rw e (get_elem?-overwrite zero i vs xs (omega arith) ∙ ground arith)
get_elem?-overwrite (suc o) i vs [] h = absurd (omega arith)
get_elem?-overwrite (suc o) zero vs (x ∷ xs) h = ground arith
get_elem?-overwrite (suc o) (suc i) vs (x ∷ xs) h =
    let e : suc o + length vs ≡ suc (o + length vs) = omega arith in
    rw e (get_elem?-overwrite o i vs xs (omega arith) ∙ ground arith)

pub length-overwrite :
    (o : ℕ) (vs xs : List ℕ) → o + length vs ≤ length xs → length (overwrite o vs xs) ≡ length xs
unfolding overwrite
length-overwrite o vs xs h = omega (
  arith,
  length-append (take o xs) (vs ++ drop (o + length vs) xs),
  length-append vs (drop (o + length vs) xs),
  length-take o xs,
  length-drop (o + length vs) xs,
)

-- The values that a message brings for a part.
abbrev pub Brings : Option (List ℕ) → Part → List ℕ → Type 0
Brings values part v = (pointee values part.send_count ≡ ok v) × (length v ≡ part.send_count)

-- One vector after a part of it has been stored: the part holds the values, and nothing else has
-- changed.
pub record Written (part : Part) (v xs ys : List ℕ) : Type 0 where
  pub length_same : length ys ≡ length xs
  pub inside : part.local_offset_server + part.send_count ≤ length xs
  pub here :
      (i : ℕ) → i < part.send_count → get_elem? ys (part.local_offset_server + i) ≡ get_elem? v i
  pub elsewhere :
      (i : ℕ)
      → (i < part.local_offset_server) ⊎ (part.local_offset_server + part.send_count ≤ i)
      → get_elem? ys i ≡ get_elem? xs i

overwrite-Written :
    (part : Part) (v xs : List ℕ)
    → length v ≡ part.send_count
    → part.send_count + part.local_offset_server ≤ length xs
    → Written part v xs (overwrite part.local_offset_server v xs)
overwrite-Written part v xs e h =
    let fits : part.local_offset_server + length v ≤ length xs = omega arith in
    record {
      length_same = length-overwrite part.local_offset_server v xs fits;
      inside = omega arith;
      here = λ i lt.
          get_elem?-overwrite part.local_offset_server (part.local_offset_server + i) v xs fits
          ∙ ground (arith, ap (get_elem? v) (add_sub part.local_offset_server i));
      elsewhere = λ i out. get_elem?-overwrite part.local_offset_server i v xs fits ∙ ground arith;
    }
  where
    add_sub : (o i : ℕ) → o + i - o ≡ i
    add_sub o i = omega arith

pointee-length :
    (values : Option (List ℕ)) (count : ℕ) (v : List ℕ)
    → pointee values count ≡ ok v
    → length v ≡ count
unfolding pointee slice
pointee-length none count v e = ground arith
pointee-length (some vs) count v e = ground (arith, length-take count vs)

-- A member after a message has been stored.
pub record Stored (part : Part) (values : Option (List ℕ)) (hidden_part : Part)
    (values_hidden : Option (List ℕ)) (m m' : EnsembleMember) : Type 0 where
  pub new_background : List ℕ
  pub new_hidden : List ℕ
  pub brought : Brings values part new_background
  pub brought_hidden : Brings values_hidden hidden_part new_hidden
  pub background : Written part new_background m.state_background m'.state_background
  pub hidden : Written hidden_part new_hidden m.state_hidden m'.state_hidden
  pub analysis_same : m'.state_analysis ≡ m.state_analysis

store_background_state_part-Stored :
    (part : Part) (values : Option (List ℕ)) (hidden_part : Part) (values_hidden : Option (List ℕ))
    (m m' : EnsembleMember)
    → store_background_state_part part values hidden_part values_hidden m ≡ ok m'
    → Stored part values hidden_part values_hidden m m'
unfolding store_background_state_part
store_background_state_part-Stored part values hidden_part values_hidden m m' e =
    let (_, e1) = check-inv (is_some values || part.send_count == 0) _ e in
    let (fits, e2) =
      check-inv (leb (part.send_count + part.local_offset_server) (length m.state_background)) _
        e1 in
    let (v, pv, e3) = >>=-eq-ok (pointee values part.send_count) _ e2 in
    let (_, e4) = check-inv (is_some values_hidden || hidden_part.send_count == 0) _ e3 in
    let (fits_hidden, e5) =
      check-inv
        (leb (hidden_part.send_count + hidden_part.local_offset_server) (length m.state_hidden)) _
        e4 in
    let (h, ph, e6) = >>=-eq-ok (pointee values_hidden hidden_part.send_count) _ e5 in
    let lv = pointee-length values part.send_count v pv in
    let lh = pointee-length values_hidden hidden_part.send_count h ph in
    subst (Stored part values hidden_part values_hidden m) (ok_inj _ m' e6) (record {
      new_background = v;
      new_hidden = h;
      brought = (pv, lv);
      brought_hidden = (ph, lh);
      background = overwrite-Written part v m.state_background lv (ground arith);
      hidden = overwrite-Written hidden_part h m.state_hidden lh (ground arith);
      analysis_same = refl;
    })

-- A field after a message for `state_id` has been stored.
pub record StoredAt (state_id : ℕ) (part : Part) (values : Option (List ℕ)) (hidden_part : Part)
    (values_hidden : Option (List ℕ)) (f f' : Field) : Type 0 where
  pub before : EnsembleMember
  pub after : EnsembleMember
  pub was : get_elem? f.ensemble_members state_id ≡ some before
  pub is : get_elem? f'.ensemble_members state_id ≡ some after
  pub stored : Stored part values hidden_part values_hidden before after
  pub others_same :
      (i : ℕ) → state_id ≢ i → get_elem? f'.ensemble_members i ≡ get_elem? f.ensemble_members i

get_elem?-lt {ℓ} :
    {A : Type ℓ} (xs : List A) (i : ℕ) (x : A) → get_elem? xs i ≡ some x → i < length xs
get_elem?-lt [] i x e = cc
get_elem?-lt (y ∷ ys) zero x e = omega arith
get_elem?-lt (y ∷ ys) (suc i) x e = omega (arith, get_elem?-lt ys i x e)

-- When a received part is stored, the member of its state holds the received values where the part
-- lies, in the background state and in the hidden state; the rest of both, the analysis state and
-- the other members are as they were.
pub store_part-StoredAt :
    (state_id : ℕ) (part : Part) (values : Option (List ℕ)) (hidden_part : Part)
    (values_hidden : Option (List ℕ)) (f f' : Field)
    → store_part state_id part values hidden_part values_hidden f ≡ ok f'
    → StoredAt state_id part values hidden_part values_hidden f f'
unfolding store_part
store_part-StoredAt state_id part values hidden_part values_hidden f f' e =
    let (m, at, e1) =
      >>=-eq-ok (or_fail out_of_range (get_elem? f.ensemble_members state_id)) _ e in
    let (m', done, e2) =
      >>=-eq-ok (store_background_state_part part values hidden_part values_hidden m) _ e1 in
    let was = or_fail-inv _ _ m at in
    let inside = get_elem?-lt f.ensemble_members state_id m was in
    subst (StoredAt state_id part values hidden_part values_hidden f) (ok_inj _ f' e2) (record {
      before = m;
      after = m';
      was = was;
      is = get_elem?-set_self f.ensemble_members state_id m' inside;
      stored = store_background_state_part-Stored part values hidden_part values_hidden m m' done;
      others_same = λ i ne. get_elem?-set_ne f.ensemble_members m' ne;
    })
