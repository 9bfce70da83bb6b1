-- ===== src/Storage/Deleted.antt =====
-- api/p2p/StorageController/storage_controller.cxx: what `delete_request` does, when it returns.
use fugaku_particle_filter.Prelude.{
  ℕ, ◌+◌, ◌-◌, ◌<◌, ◌≡◌, sym, [], ◌∷◌, ◌++◌, not, ltb, if◌then◌else◌, arith, ok, err, exit, ok_inj,
  check-inv, >>=-eq-ok,
}
use fugaku_particle_filter.Containers.{map_erase}
use fugaku_particle_filter.Storage.{StorageController, free_slot, delete_request, delete_query}
use fugaku_particle_filter.Storage.Io.{StateId, IoController, io_storage_l1, to_ckpt_id}

module _ (I : IoController) where
  -- The state that the next answer names.
  abbrev pub named : StorageController I → StateId
  named s = (s.answers s.asked).to_delete

  pub record Deleted (s s' : StorageController I) : Type 0 where
    pub ckpt_id : ℕ
    pub id_is : to_ckpt_id (named s) ≡ ok ckpt_id
    pub io : I.State
    pub removed : I.remove s.io (named s) io_storage_l1 ≡ ok io
    pub used : 0 < s.used_slots
    pub is :
        record s {
          io = io;
          asked = s.asked + 1;
          sent = s.sent ++ (delete_query s.cached_states ∷ []);
          used_slots = s.used_slots - 1;
          cached_states = map_erase ckpt_id s.cached_states;
        }
        ≡ s'

  pub delete_request-Deleted :
      (s s' : StorageController I) → delete_request I s ≡ ok s' → Deleted s s'
  unfolding delete_request free_slot
  delete_request-Deleted s s' e =
      let x = named s in
      let (io, removed, e') = >>=-eq-ok (I.remove s.io x io_storage_l1) _ e in
      let (k, id_is, e0) = >>=-eq-ok (to_ckpt_id x) _ e' in
      let (_, _, e1) = >>=-eq-ok (if I.has_local_dir io x then err exit else ok tt) _ e0 in
      let (_, e2) = check-inv (not (I.is_local io x)) _ e1 in
      let (s1, freed, e3) =
        >>=-eq-ok
          (free_slot I (record s {
            io = io;
            asked = s.asked + 1;
            sent = s.sent ++ (delete_query s.cached_states ∷ []);
          }))
          _ e2 in
      let (used, made) = check-inv (ltb 0 s.used_slots) _ freed in
      record {
        ckpt_id = k;
        id_is = id_is;
        io = io;
        removed = removed;
        used = ground (arith, used);
        is = ok_inj _ s' (rw (sym (ok_inj _ s1 made)) at e3);
      }
