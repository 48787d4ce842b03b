-- ===== src/Storage/Voting.antt =====
-- What `StableStore::save` of src/storage/stable_store.cpp leaves for the next `open`.
use sententia.Prelude.{
  ℕ, ◌^◌, ◌<◌, ◌≡◌, refl, sym, ap, ◌∙◌, ◌⊎◌, inl, inr, Bool, true, false, some, Option, List, arith,
  ==-refl, take,
}
use sententia.Wire.{byte_at}
use sententia.Wal.{crc32, get_word}
use sententia.Wal.Scanning.{word_back, crc32_fits}
use sententia.Storage.{Files, write_tmp, put_in_place, tmp_path, then_try}
use sententia.Storage.Promises.{IsFiles, reading_of, replace, replace-Replaces}
use sententia.Storage.StableStore.{
  StableState, StableStore, stable_file_size, fresh_store, is_intact, load_state, opened, get_long,
  state_body, state_bytes, open_store, count_flush, after_rename, after_flush, save,
}

pub record StateFits (st : StableState) : Type 0 where
  pub term : st.current_term < 2 ^ 64
  pub vote : st.voted_for < 2 ^ 32

module _ (st : StableState) (fits : StateFits st) where
  crc_back : get_word (state_bytes st) 16 ≡ crc32 (state_body st)
  unfolding get_word state_bytes byte_at
  crc_back = word_back (crc32 (state_body st)) (crc32_fits (state_body st))

  bytes-is_intact : is_intact (state_bytes st) ≡ true
  unfolding is_intact
  bytes-is_intact = rw crc_back (unfold state_bytes get_word byte_at in rw ==-refl refl)

  vote_back : get_word (state_bytes st) 12 ≡ st.voted_for
  unfolding get_word state_bytes byte_at
  vote_back = word_back st.voted_for fits.vote

  term_back : get_long (state_bytes st) 4 ≡ st.current_term
  unfolding get_long state_bytes byte_at
  term_back = omega (arith, fits.term)

  bytes_back :
      (s : StableStore) → (load_state (take stable_file_size (state_bytes st)) s).state ≡ st
  bytes_back s =
      let whole : take stable_file_size (state_bytes st) ≡ state_bytes st =
        unfold state_bytes in refl in
      rw whole (unfold load_state in rw (bytes-is_intact, vote_back, term_back) refl)

abbrev pub held_in : List ℕ → Option (List ℕ) → StableState
held_in path c = (opened (reading_of c) (fresh_store path)).1.state

module _ (files : Files) (f : IsFiles files) where
  -- The term and the vote that a file holds for `open`.
  abbrev pub held : List ℕ → files.State → StableState
  held path d = held_in path (f.contents path d)

  pub record Persists (st : StableState) (s : StableStore) (d : files.State)
      (r : Bool × StableStore × files.State) : Type 0 where
    pub done : r.0 ≡ true → (r.1.state ≡ st) × (held s.path r.2 ≡ st)
    pub failed : r.0 ≡ false → r.1.state ≡ s.state
    pub either : (held s.path r.2 ≡ held s.path d) ⊎ (held s.path r.2 ≡ st)
    pub reopened :
        (open_store files s.path r.2).0 ≡ true
        → (open_store files s.path r.2).1.state ≡ held s.path r.2

  open_store-held :
      (path : List ℕ) (d : files.State)
      → (open_store files path d).0 ≡ true
      → (open_store files path d).1.state ≡ held path d
  unfolding open_store
  open_store-held path d = elim (f.read path d) [
    | inl bad ↦ rw bad (λ ok. ground (arith, ok))
    | inr good ↦ rw good (λ ok. refl)
  ]

  -- A save is a replacement of the file.
  save-replace :
      (st : StableState) (s : StableStore) (d : files.State)
      → let r = replace files f s.path (state_bytes st) d in
        ((save files st s d).0 ≡ r.0)
        × ((save files st s d).2 ≡ r.1)
        × ((save files st s d).0 ≡ true → (save files st s d).1.state ≡ st)
        × ((save files st s d).0 ≡ false → (save files st s d).1.state ≡ s.state)
  unfolding save
  save-replace st s d = flushed (write_tmp files (tmp_path s.path) (state_bytes st) d)
    where
      renamed :
          (r : Bool × files.State)
          → ((after_rename files st (count_flush files s) r).0 ≡ r.0)
            × ((after_rename files st (count_flush files s) r).2 ≡ r.1)
            × ((after_rename files st (count_flush files s) r).0 ≡ true
                → (after_rename files st (count_flush files s) r).1.state ≡ st)
            × ((after_rename files st (count_flush files s) r).0 ≡ false
                → (after_rename files st (count_flush files s) r).1.state ≡ s.state)
      renamed (false, d') = (refl, refl, (λ ok. ground (arith, ok)), λ no'. refl)
      renamed (true, d') = (refl, refl, (λ ok. refl), λ no'. ground (arith, no'))

      flushed :
          (r : Bool × files.State)
          → ((after_flush files st s r).0 ≡ (then_try files (put_in_place files s.path) r).0)
            × ((after_flush files st s r).2 ≡ (then_try files (put_in_place files s.path) r).1)
            × ((after_flush files st s r).0 ≡ true → (after_flush files st s r).1.state ≡ st)
            × ((after_flush files st s r).0 ≡ false → (after_flush files st s r).1.state ≡ s.state)
      flushed (false, d') = (refl, refl, (λ ok. ground (arith, ok)), λ no'. refl)
      flushed (true, d') = renamed (put_in_place files s.path d')

  -- After a save the file holds the new term and vote, or what it held before, never a mixture,
  -- also if a call failed or a crash came between; a save that succeeds leaves the new ones, in the
  -- file and in memory, and one that fails leaves memory alone. An `open` that succeeds gives what the
  -- file holds. The numbers fit their fields, and the files keep the promises of the system.
  pub save-Persists :
      (st : StableState) (s : StableStore) (d : files.State)
      → StateFits st
      → Persists st s d (save files st s d)
  save-Persists st s d fits =
      let (ok_same, files_same, won, lost) = save-replace st s d in
      let now = replace-Replaces files f s.path (state_bytes st) d in
      let same = ap (f.contents s.path) files_same in
      let on_disk : (f.contents s.path (replace files f s.path (state_bytes st) d).1
            ≡ some (state_bytes st))
          → held s.path (save files st s d).2 ≡ st =
        λ e. ap (held_in s.path) (same ∙ e) ∙ bytes_back st fits (fresh_store s.path) in
      record {
        done = λ ok. (won ok, on_disk (now.done (sym ok_same ∙ ok)));
        failed = lost;
        either = elim now.either [
          | inl e ↦ inl (ap (held_in s.path) (same ∙ e))
          | inr e ↦ inr (on_disk e)
        ];
        reopened = open_store-held s.path (save files st s d).2;
      }
