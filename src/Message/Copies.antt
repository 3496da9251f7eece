-- ===== src/Message/Copies.antt =====
-- Message.cpp, `copy_metadata_container`: what the copy of a map is filled with.
use azure_uamqp_php.Prelude.{
  ℕ, zero, suc, ◌+◌, ◌≤◌, ◌<◌, ◌≡◌, refl, ◌∙◌, Bool, true, false, Option, none, some, List, ◌∷◌, ok,
  arith, if◌then◌else◌,
}
use azure_uamqp_php.AmqpValue.{AmqpType}
use azure_uamqp_php.Message.Library.{MessageApi}
use azure_uamqp_php.Message.State.{State, Change}
use azure_uamqp_php.Message.Metadata.{copy_pairs, copy_map, copy_metadata_container, is_replaced}

module _ (api : MessageApi) where
  abbrev S : Type 0
  S = State api.Library api.Value api.Properties api.Handle

  abbrev Entry : Type 0
  Entry = Change api.Value api.Properties

  -- What has to hold of the library while the first `n` pairs of `source`, as they are in `l`, are
  -- written to `result`. `going` says of a state that the copy can go on in it, by what it says of
  -- the memory that is left, for instance. In such a state the pairs of the source are those of `l`,
  -- their keys compare as in `l`, and each of them is accepted, which leads to such a state again.
  pub record IsWritable (source result : api.Value) (replaced : Option api.Value) (l : api.Library)
      (n : ℕ) : Type 1 where
    pub going : api.Library → Type 0
    pub same_pair :
        (m : api.Library) (i : ℕ)
        → going m
        → i < n
        → (api.reads m).get_map_key_value_pair source i
          ≡ (api.reads l).get_map_key_value_pair source i
    pub same_key :
        (m : api.Library) (i : ℕ) (key value : Option api.Value)
        → going m
        → i < n
        → (api.reads l).get_map_key_value_pair source i ≡ some (key, value)
        → is_replaced api replaced m key ≡ is_replaced api replaced l key
    pub accepted :
        (m : api.Library) (i : ℕ) (key value : Option api.Value)
        → going m
        → i < n
        → (api.reads l).get_map_key_value_pair source i ≡ some (key, value)
        → is_replaced api replaced l key ≡ false
        → ((api.set_map_value result key value m).0 ≡ true)
          × going (api.set_map_value result key value m).1

  -- The pairs from `index` on, but for those whose key is replaced, on top of a log.
  abbrev pub pairs_kept :
      api.Library → api.Value → Option api.Value → api.Value → ℕ → ℕ → List Entry → List Entry
  pairs_kept l source replaced result index zero log = log
  pairs_kept l source replaced result index (suc left) log =
      pairs_kept l source replaced result (index + 1) left
        (elim ((api.reads l).get_map_key_value_pair source index) [
          | none ↦ log
          | some (key, value) ↦
              if is_replaced api replaced l key then log else Change.put result key value ∷ log
        ])

  module _ (source result : api.Value) (replaced : Option api.Value) (l : api.Library) (n : ℕ)
      (writable : IsWritable source result replaced l n) where
    -- How the loop ends: with this log.
    abbrev Ends : ℕ → ℕ → S → Type 0
    Ends index left s =
        (s' : S) × (copy_pairs api source replaced result index left s ≡ (ok tt, s'))
        × (s'.log ≡ pairs_kept l source replaced result index left s.log)

    copy_pairs-Ends :
        (index left : ℕ) (s : S)
        → writable.going s.library
        → index + left ≤ n
        → ((i : ℕ)
            → i < n
            → (p : Option api.Value × Option api.Value) × ((api.reads l).get_map_key_value_pair
                  source i
                ≡ some p))
        → Ends index left s
    unfolding copy_pairs
    copy_pairs-Ends index zero s going le r = (s, refl, refl)
    copy_pairs-Ends index (suc left) s going le r =
        let here : index < n = omega arith in
        let ((key, value), found) = r index here in
        step here (λ t going'. copy_pairs-Ends (index + 1) left t going' (omega arith) r) key value
          found (is_replaced api replaced l key) refl
      where
        step :
            index < n
            → ((t : S) → writable.going t.library → Ends (index + 1) left t)
            → (key value : Option api.Value)
            → (api.reads l).get_map_key_value_pair source index ≡ some (key, value)
            → (b : Bool) → is_replaced api replaced l key ≡ b
            → Ends index (suc left) s
        step here rest key value found true dropped =
            rw (writable.same_pair s.library index going here ∙ found, found)
              (rw (writable.same_key s.library index key value going here found ∙ dropped, dropped)
                (rest s going))
        step here rest key value found false dropped =
            let (done, going') =
              writable.accepted s.library index key value going here found dropped in
            let written_state = record s {
              library = (api.set_map_value result key value s.library).1;
              log = Change.put result key value ∷ s.log;
            } in
            rw (writable.same_pair s.library index going here ∙ found, found)
              (rw (writable.same_key s.library index key value going here found ∙ dropped, dropped)
                (rw done (rest written_state going')))

  -- For a map whose pairs can all be read, and a container that is created and takes each of these
  -- pairs that is not replaced, while the pairs of the map stay as they are: the copy is that
  -- container, and it is written the pairs of the map, in their order
  -- and but for those whose key equals the replaced one; nothing else is written.
  pub copy_metadata_container-map :
      (source result : api.Value) (replaced : Option api.Value) (n : ℕ) (s : S) (m : api.Library)
      → (api.reads s.library).get_type source ≡ AmqpType.map
      → (api.reads s.library).get_map_pair_count source ≡ some n
      → ((i : ℕ)
          → i < n
          → (p : Option api.Value × Option api.Value) × ((api.reads
                  s.library).get_map_key_value_pair
                source i
              ≡ some p))
      → api.create_map s.library ≡ (some result, m)
      → (writable : IsWritable source result replaced s.library n) → writable.going m
      → (s' : S) × (copy_metadata_container api source replaced s ≡ (ok result, s'))
        × (s'.log ≡ pairs_kept s.library source replaced result 0 n (Change.made result ∷ s.log))
  unfolding copy_metadata_container copy_map
  copy_metadata_container-map source result replaced n s m type count pairs create writable going =
      let created_state = record s { library = m; log = Change.made result ∷ s.log } in
      let (s', ends, log) =
        copy_pairs-Ends source result replaced s.library n writable 0 n created_state going
          (omega arith) pairs in
      (s', rw (type, count, create) (rw ends refl), log)
