-- ===== src/Part/NToM.antt =====
-- The loop of `calculate_n_to_m` of common/Part.cxx, in the terms of Part/Positions.antt.
use fugaku_particle_filter.Prelude.{
  ℕ, zero, suc, ◌+◌, ◌≡◌, refl, sym, ap, ap₂, ◌∙◌, List, [], ◌∷◌, ◌++◌, append-nil, append_assoc,
  some, Bool, true, false, arith, get_elem?,
}
use native.Mathlib.Numerals.{add-one}
use fugaku_particle_filter.Part.{Part, Cut, crosses, advance, cut_bytes, first_cut, parts_of}
use fugaku_particle_filter.Part.Positions.{
  Link, pair_up, expand, expand_all, links-suc, expand_all-append, sum, AllIn, positions, Next,
  find-Next, get_elem?-drop, Side, bytes, bytes_none, Lands, run,
}

-- What is cut so far.
abbrev pub cut_links : Cut → List Link
cut_links c = expand_all (c.closed ++ (c.last ∷ []))

-- The current part ends where the two indices stand.
abbrev pub IsLevel : Cut → Type 0
IsLevel c =
    (c.last.local_offset_runner + c.last.send_count ≡ c.index_in_runner)
    × (c.last.local_offset_server + c.last.send_count ≡ c.index_in_server)

cut_links-snoc :
    (ps : List Part) (p : Part) → expand_all (ps ++ (p ∷ [])) ≡ expand_all ps ++ expand p
cut_links-snoc ps p =
    expand_all-append ps (p ∷ []) ∙ ap (λ l. expand_all ps ++ l) (append-nil (expand p))

grow_links :
    (ps : List Part) (p : Part)
    → expand_all (ps ++ (record p { send_count = p.send_count + 1 } ∷ []))
      ≡ expand_all (ps ++ (p ∷ []))
        ++ ((
          (p.rank_runner, p.local_offset_runner + p.send_count),
          (p.rank_server, p.local_offset_server + p.send_count),
        )
            ∷ [])
grow_links ps p =
    rw (cut_links-snoc ps (record p { send_count = p.send_count + 1 }), cut_links-snoc ps p)
      (rw (append_assoc (expand_all ps) (expand p) _) (
        ap (λ l. expand_all ps ++ l)
          (rw add-one (
            links-suc p.rank_runner p.local_offset_runner p.rank_server p.local_offset_server
              p.send_count))))

fresh_links :
    (ps : List Part) (r i s j : ℕ)
    → expand_all (
        ps
        ++ (record {
          rank_runner = r;
          local_offset_runner = i;
          rank_server = s;
          local_offset_server = j;
          send_count = 0 + 1;
        }
            ∷ []))
      ≡ expand_all ps ++ (((r, i), (s, j)) ∷ [])
fresh_links ps r i s j = cut_links-snoc ps _

record Advanced (c : Cut) (d : Cut) (r i s j : ℕ) : Type 0 where
  joined : cut_links d ≡ cut_links c ++ (((r, i), (s, j)) ∷ [])
  level : IsLevel d
  runner : d.last.rank_runner ≡ r
  server : d.last.rank_server ≡ s
  runner_index : d.index_in_runner ≡ i + 1
  server_index : d.index_in_server ≡ j + 1

-- One round of the loop joins one byte of the runner to one of the server.
advance-Advanced :
    (size_runner size_server : ℕ) (c : Cut) (r i s j : ℕ) (b b' : Bool)
    → IsLevel c
    → crosses c.index_in_runner size_runner ≡ b
    → crosses c.index_in_server size_server ≡ b'
    → Lands b c.last.rank_runner c.index_in_runner r i
    → Lands b' c.last.rank_server c.index_in_server s j
    → Advanced c (advance size_runner size_server c) r i s j
unfolding advance
advance-Advanced size_runner size_server c r i s j true true l e e' p p' =
    rw (e, e', p.0, p.1, p'.0, p'.1)
      (record {
        joined = fresh_links (c.closed ++ (c.last ∷ [])) _ _ _ _;
        level = omega arith;
        runner = refl;
        server = refl;
        runner_index = refl;
        server_index = refl;
      })
advance-Advanced size_runner size_server c r i s j true false l e e' p p' =
    rw (e, e', p.0, p.1, p'.0, p'.1)
      (record {
        joined = fresh_links (c.closed ++ (c.last ∷ [])) _ _ _ _;
        level = omega arith;
        runner = refl;
        server = refl;
        runner_index = refl;
        server_index = refl;
      })
advance-Advanced size_runner size_server c r i s j false true l e e' p p' =
    rw (e, e', p.0, p.1, p'.0, p'.1)
      (record {
        joined = fresh_links (c.closed ++ (c.last ∷ [])) _ _ _ _;
        level = omega arith;
        runner = refl;
        server = refl;
        runner_index = refl;
        server_index = refl;
      })
advance-Advanced size_runner size_server c r i s j false false l e e' p p' =
    rw (e, e', p.0, p.1, p'.0, p'.1, ← l.0, ← l.1)
      (record {
        joined = grow_links c.closed c.last;
        level = omega arith;
        runner = refl;
        server = refl;
        runner_index = refl;
        server_index = refl;
      })

-- The current part stands at these places.
record StandsAt (c : Cut) (r i s j : ℕ) : Type 0 where
  level : IsLevel c
  runner : c.last.rank_runner ≡ r
  server : c.last.rank_server ≡ s
  runner_index : c.index_in_runner ≡ i
  server_index : c.index_in_server ≡ j

cut_bytes-suc :
    (xs ys : List ℕ) (n : ℕ) (c : Cut) (a b : ℕ)
    → get_elem? xs c.last.rank_runner ≡ some a
    → get_elem? ys c.last.rank_server ≡ some b
    → cut_bytes xs ys (suc n) c ≡ cut_bytes xs ys n (advance a b c)
unfolding cut_bytes
cut_bytes-suc xs ys n c a b p q = rw (p, q, cut_bytes) refl

-- One round, where `Next` says what each border test finds.
round :
    (xs ys : List ℕ) (n : ℕ) (c : Cut) (r i s j : ℕ) (x : Side xs r i (suc n))
    (y : Side ys s j (suc n)) (u : Next x) (v : Next y)
    → StandsAt c r i s j
    → let d = advance x.size y.size c in
      (cut_bytes xs ys (suc n) c ≡ cut_bytes xs ys n d)
      × Advanced c d u.rank u.offset v.rank v.offset
round xs ys n c r i s j x y u v at = (
  cut_bytes-suc xs ys n c x.size y.size
      (rw at.runner ((get_elem?-drop xs r x.size x.later x.here).0))
      (rw at.server ((get_elem?-drop ys s y.size y.later y.here).0)),
  advance-Advanced x.size y.size c u.rank u.offset v.rank v.offset u.border v.border (at.level)
      (rw at.runner_index u.crossed) (rw at.server_index v.crossed)
      (rw (at.runner, at.runner_index) u.lands) (rw (at.server, at.server_index) v.lands),
)

-- The loop joins what is left of the runner side to what is left of the server side, in order.
cut_bytes-links :
    (xs ys : List ℕ) (n : ℕ) (c : Cut) (r i s j : ℕ) (x : Side xs r i n) (y : Side ys s j n)
    → StandsAt c r i s j
    → (d : Cut) × (cut_bytes xs ys n c ≡ some d)
      × (cut_links d ≡ cut_links c ++ pair_up (bytes r i x) (bytes s j y))
unfolding cut_bytes
cut_bytes-links xs ys zero c r i s j x y at =
    (c, refl, rw (bytes_none x) (sym (append-nil (cut_links c))))
cut_bytes-links xs ys (suc n) c r i s j x y at =
    let u : Next x = find-Next x in
    let v : Next y = find-Next y in
    let (same, a) = round xs ys n c r i s j x y u v at in
    let (d, done, joined) =
      cut_bytes-links xs ys n (advance x.size y.size c) u.rank (u.offset + 1) v.rank (v.offset + 1)
        u.after v.after
        (record {
          level = a.level;
          runner = a.runner;
          server = a.server;
          runner_index = a.runner_index;
          server_index = a.server_index;
        }) in
    (
      d,
      same ∙ done,
      joined
          ∙ ap
              (λ l.
                l
                ++ pair_up (bytes u.rank (u.offset + 1) u.after)
                    (bytes v.rank (v.offset + 1) v.after))
              a.joined
          ∙ append_assoc (cut_links c) _ _
          ∙ ap (λ l. cut_links c ++ l) (sym (ap₂ pair_up u.step v.step)),
    )

first-StandsAt : StandsAt first_cut 0 0 0 0
first-StandsAt = record {
  level = (refl, refl);
  runner = refl;
  server = refl;
  runner_index = refl;
  server_index = refl;
}

whole_side : (xs : List ℕ) (n : ℕ) → AllIn xs → sum xs ≡ suc n → Side xs 0 0 (suc n)
whole_side [] n all e = absurd (omega arith)
whole_side (x ∷ xs) n all e = record {
  size = x;
  later = xs;
  here = refl;
  sizes_in = all;
  bound = omega arith;
  left = omega arith;
}

bytes-whole_side :
    (xs : List ℕ) (n : ℕ) (all : AllIn xs) (e : sum xs ≡ suc n)
    → bytes 0 0 (whole_side xs n all e) ≡ positions 0 xs
unfolding whole_side
bytes-whole_side [] n all e = absurd (omega arith)
bytes-whole_side (x ∷ xs) n all e = ap (λ k. run 0 0 k ++ positions (0 + 1) xs) (omega arith)

-- The loop over two lists of positive sizes that hold equally many bytes.
pub cut_bytes-positions :
    (xs ys : List ℕ) (n : ℕ)
    → AllIn xs
    → AllIn ys
    → sum xs ≡ suc n
    → sum ys ≡ suc n
    → (parts : List Part) × (parts_of (cut_bytes xs ys (suc n) first_cut) ≡ some parts)
      × (expand_all parts ≡ pair_up (positions 0 xs) (positions 0 ys))
cut_bytes-positions xs ys n ax ay ex ey =
    let (d, done, joined) =
      cut_bytes-links xs ys (suc n) first_cut 0 0 0 0 (whole_side xs n ax ex)
        (whole_side ys n ay ey) first-StandsAt in
    (
      d.closed ++ (d.last ∷ []),
      ap parts_of done,
      joined ∙ ap₂ pair_up (bytes-whole_side xs n ax ex) (bytes-whole_side ys n ay ey),
    )
