-- ===== src/Storage/Promises.antt =====
-- What the system's calls promise of the files of src/storage/, and what is in a file after it was
-- replaced, or after a part of that.
use sententia.Prelude.{
  ℕ, ◌≡◌, ◌≢◌, refl, ap, ◌∙◌, ◌⊎◌, inl, inr, Bool, true, false, some, Option, none, List, [], ◌∷◌,
  ◌++◌, length, length-append, arith,
}
use sententia.Storage.{
  Reading, absent, unreadable, bytes_read, Files, tmp_path, then_try, write_tmp, put_in_place,
  parent_dir,
}

abbrev pub reading_of : Option (List ℕ) → Reading
reading_of none = absent
reading_of (some bytes) = bytes_read bytes

-- A call may fail at any time, and a call after it too, as after a crash. What a failed write has
-- written of its bytes is not said; a rename is done whole or not at all.
pub record IsFiles (files : Files) : Type 0 where
  pub contents : List ℕ → files.State → Option (List ℕ)
  pub read :
      (p : List ℕ) (d : files.State)
      → (files.read_file p d ≡ unreadable) ⊎ (files.read_file p d ≡ reading_of (contents p d))
  pub make_dir : (p q : List ℕ) (d : files.State) → contents q (files.make_dir p d).1 ≡ contents q d
  pub create :
      (p : List ℕ) (d : files.State)
      → (files.create p d).0 ≡ true
      → contents p (files.create p d).1 ≡ some []
  pub create_other :
      (p q : List ℕ) (d : files.State) → q ≢ p → contents q (files.create p d).1 ≡ contents q d
  pub write :
      (p bytes old : List ℕ) (d : files.State)
      → contents p d ≡ some old
      → (files.write_all p bytes d).0 ≡ true
      → contents p (files.write_all p bytes d).1 ≡ some (old ++ bytes)
  pub write_other :
      (p q bytes : List ℕ) (d : files.State)
      → q ≢ p
      → contents q (files.write_all p bytes d).1 ≡ contents q d
  pub sync_file :
      (p q : List ℕ) (d : files.State) → contents q (files.sync_file p d).1 ≡ contents q d
  pub sync_dir : (p q : List ℕ) (d : files.State) → contents q (files.sync_dir p d).1 ≡ contents q d
  pub rename :
      (p q : List ℕ) (d : files.State)
      → (files.rename p q d).0 ≡ true
      → contents q (files.rename p q d).1 ≡ contents p d
  pub rename_other :
      (p q r : List ℕ) (d : files.State)
      → r ≢ p
      → r ≢ q
      → contents r (files.rename p q d).1 ≡ contents r d
  pub rename_failed :
      (p q r : List ℕ) (d : files.State)
      → (files.rename p q d).0 ≡ false
      → contents r (files.rename p q d).1 ≡ contents r d

pub path-ne-tmp_path : (path : List ℕ) → path ≢ tmp_path path
path-ne-tmp_path path e =
    absurd (omega (arith, ap length e, length-append path (b'.' ∷ b't' ∷ b'm' ∷ b'p' ∷ [])))

module _ (files : Files) (f : IsFiles files) where
  -- A file after another was touched: the same, however the calls went.
  tmp_other :
      (tmp bytes q : List ℕ) (d : files.State)
      → q ≢ tmp
      → f.contents q (write_tmp files tmp bytes d).1 ≡ f.contents q d
  unfolding write_tmp
  tmp_other tmp bytes q d ne =
      synced (then_try files (files.write_all tmp bytes) (files.create tmp d))
      ∙ wrote (files.create tmp d)
      ∙ f.create_other tmp q d ne
    where
      synced :
          (r : Bool × files.State)
          → f.contents q (then_try files (files.sync_file tmp) r).1 ≡ f.contents q r.1
      synced (false, d') = refl
      synced (true, d') = f.sync_file tmp q d'

      wrote :
          (r : Bool × files.State)
          → f.contents q (then_try files (files.write_all tmp bytes) r).1 ≡ f.contents q r.1
      wrote (false, d') = refl
      wrote (true, d') = f.write_other tmp q bytes d' ne

  tmp_done :
      (tmp bytes : List ℕ) (d : files.State)
      → (write_tmp files tmp bytes d).0 ≡ true
      → f.contents tmp (write_tmp files tmp bytes d).1 ≡ some bytes
  unfolding write_tmp
  tmp_done tmp bytes d =
      synced (then_try files (files.write_all tmp bytes) (files.create tmp d))
        (wrote (files.create tmp d) (f.create tmp d))
    where
      synced :
          (r : Bool × files.State)
          → (r.0 ≡ true → f.contents tmp r.1 ≡ some bytes)
          → (then_try files (files.sync_file tmp) r).0 ≡ true
          → f.contents tmp (then_try files (files.sync_file tmp) r).1 ≡ some bytes
      synced (false, d') h ok = ground (arith, ok)
      synced (true, d') h ok = f.sync_file tmp tmp d' ∙ h refl

      wrote :
          (r : Bool × files.State)
          → (r.0 ≡ true → f.contents tmp r.1 ≡ some [])
          → (then_try files (files.write_all tmp bytes) r).0 ≡ true
          → f.contents tmp (then_try files (files.write_all tmp bytes) r).1 ≡ some bytes
      wrote (false, d') h ok = ground (arith, ok)
      wrote (true, d') h ok = f.write tmp bytes [] d' (h refl) ok

  -- After the calls on the directory: a file is as before, or, if it is the one to replace, what the
  -- temporary file was; this it is if all succeed.
  placed :
      (path : List ℕ) (d : files.State)
      → ((put_in_place files path d).0 ≡ true
          → f.contents path (put_in_place files path d).1 ≡ f.contents (tmp_path path) d)
        × ((f.contents path (put_in_place files path d).1 ≡ f.contents path d)
            ⊎ (f.contents path (put_in_place files path d).1 ≡ f.contents (tmp_path path) d))
  unfolding put_in_place
  placed path d =
      synced (files.rename (tmp_path path) path d) (f.rename (tmp_path path) path d)
        (f.rename_failed (tmp_path path) path path d)
    where
      synced :
          (r : Bool × files.State)
          → (r.0 ≡ true → f.contents path r.1 ≡ f.contents (tmp_path path) d)
          → (r.0 ≡ false → f.contents path r.1 ≡ f.contents path d)
          → ((then_try files (files.sync_dir (parent_dir path)) r).0 ≡ true
              → f.contents path (then_try files (files.sync_dir (parent_dir path)) r).1
                ≡ f.contents (tmp_path path) d)
            × ((f.contents path (then_try files (files.sync_dir (parent_dir path)) r).1
                  ≡ f.contents path d)
                ⊎ (f.contents path (then_try files (files.sync_dir (parent_dir path)) r).1
                    ≡ f.contents (tmp_path path) d))
      synced (false, d') yes' no' = (λ ok. ground (arith, ok), inl (no' refl))
      synced (true, d') yes' no' =
          let same = f.sync_dir (parent_dir path) path d' ∙ yes' refl in ((λ ok. same), inr same)

  placed_other :
      (path q : List ℕ) (d : files.State)
      → q ≢ tmp_path path
      → q ≢ path
      → f.contents q (put_in_place files path d).1 ≡ f.contents q d
  unfolding put_in_place
  placed_other path q d ne ne' =
      synced (files.rename (tmp_path path) path d) ∙ f.rename_other (tmp_path path) path q d ne ne'
    where
      synced :
          (r : Bool × files.State)
          → f.contents q (then_try files (files.sync_dir (parent_dir path)) r).1 ≡ f.contents q r.1
      synced (false, d') = refl
      synced (true, d') = f.sync_dir (parent_dir path) q d'

  -- The file to replace is its old self or has the new bytes; these it has if all calls succeed.
  pub record Replaces (path bytes : List ℕ) (d : files.State) (r : Bool × files.State)
      : Type 0 where
    pub done : r.0 ≡ true → f.contents path r.1 ≡ some bytes
    pub either : (f.contents path r.1 ≡ f.contents path d) ⊎ (f.contents path r.1 ≡ some bytes)
    pub others : (q : List ℕ) → q ≢ path → q ≢ tmp_path path → f.contents q r.1 ≡ f.contents q d

  abbrev pub replace : List ℕ → List ℕ → files.State → Bool × files.State
  replace path bytes d =
      then_try files (put_in_place files path) (write_tmp files (tmp_path path) bytes d)

  pub replace-Replaces :
      (path bytes : List ℕ) (d : files.State) → Replaces path bytes d (replace path bytes d)
  replace-Replaces path bytes d =
      next (write_tmp files (tmp_path path) bytes d) (tmp_done (tmp_path path) bytes d)
        (λ q. tmp_other (tmp_path path) bytes q d)
    where
      next :
          (r : Bool × files.State)
          → (r.0 ≡ true → f.contents (tmp_path path) r.1 ≡ some bytes)
          → ((q : List ℕ) → q ≢ tmp_path path → f.contents q r.1 ≡ f.contents q d)
          → Replaces path bytes d (then_try files (put_in_place files path) r)
      next (false, d') h same = record {
        done = λ ok. ground (arith, ok);
        either = inl (same path (path-ne-tmp_path path));
        others = λ q ne ne'. same q ne';
      }
      next (true, d') h same =
          let old = same path (path-ne-tmp_path path) in
          let now = placed path d' in
          record {
            done = λ ok. now.0 ok ∙ h refl;
            either = elim now.1 [ inl e ↦ inl (e ∙ old) | inr e ↦ inr (e ∙ h refl) ];
            others = λ q ne ne'. placed_other path q d' ne' ne ∙ same q ne';
          }
