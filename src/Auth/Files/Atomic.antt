-- ===== src/Auth/Files/Atomic.antt =====
-- The file at the path of the token store, whatever step of a save fails.
use openwrt_wattline.Common.{
  ℕ, true, false, ◌||◌, none, some, [], ◌++◌, if◌then◌else◌, ◌≡◌, arith, is_some, Option-cases, inl,
  inr,
}
use openwrt_wattline.Common.Bytes.{Bytes}
use openwrt_wattline.Auth.Files.{
  FileSystem, PersistResult, fill, settle, replace, drop_dir, save, drop_temp, Bool,
}

-- What the operating system documents: a new temporary file is empty, a write that succeeds adds its
-- bytes, and only a rename that succeeds changes what stands at the path.
pub record IsPosix {W F D : Type 0} (fs : FileSystem W F D) : Type 0 where
  pub mkdir_path : (m : ℕ) (w : W) → fs.at_path (fs.mkdir_all m w).0 ≡ fs.at_path w
  pub open_path : (w : W) → fs.at_path (fs.open_dir w).0 ≡ fs.at_path w
  pub create_path : (w : W) → fs.at_path (fs.create_temp w).0 ≡ fs.at_path w
  pub create_empty :
      (w : W) (f : F) → (fs.create_temp w).1 ≡ some f → fs.in_file (fs.create_temp w).0 f ≡ []
  pub chmod_path : (f : F) (m : ℕ) (w : W) → fs.at_path (fs.chmod f m w).0 ≡ fs.at_path w
  pub chmod_file : (f : F) (m : ℕ) (w : W) → fs.in_file (fs.chmod f m w).0 f ≡ fs.in_file w f
  pub write_path : (f : F) (b : Bytes) (w : W) → fs.at_path (fs.write f b w).0 ≡ fs.at_path w
  pub write_file :
      (f : F) (b : Bytes) (w : W)
      → (fs.write f b w).1 ≡ true
      → fs.in_file (fs.write f b w).0 f ≡ fs.in_file w f ++ b
  pub sync_path : (f : F) (w : W) → fs.at_path (fs.sync f w).0 ≡ fs.at_path w
  pub sync_file : (f : F) (w : W) → fs.in_file (fs.sync f w).0 f ≡ fs.in_file w f
  pub close_path : (f : F) (w : W) → fs.at_path (fs.close f w).0 ≡ fs.at_path w
  pub close_file : (f : F) (w : W) → fs.in_file (fs.close f w).0 f ≡ fs.in_file w f
  pub rename_done :
      (f : F) (w : W)
      → (fs.rename f w).1 ≡ true
      → fs.at_path (fs.rename f w).0 ≡ some (fs.in_file w f)
  pub rename_failed :
      (f : F) (w : W) → (fs.rename f w).1 ≡ false → fs.at_path (fs.rename f w).0 ≡ fs.at_path w
  pub remove_path : (f : F) (w : W) → fs.at_path (fs.remove f w).0 ≡ fs.at_path w
  pub sync_dir_path : (d : D) (w : W) → fs.at_path (fs.sync_dir d w).0 ≡ fs.at_path w
  pub close_dir_path : (d : D) (w : W) → fs.at_path (fs.close_dir d w).0 ≡ fs.at_path w

module _ {W F D : Type 0} (fs : FileSystem W F D) (posix : IsPosix fs) where
  fill_path : (f : F) (raw : Bytes) (w : W) → fs.at_path (fill fs f raw w).0 ≡ fs.at_path w
  unfolding fill
  fill_path f raw w =
      let w1 = (fs.chmod f 0o600 w).0 in
      let w2 = (fs.write f raw w1).0 in
      let w3 = (fs.sync f w2).0 in
      ground (
        arith,
        posix.chmod_path f 0o600 w,
        posix.write_path f raw w1,
        posix.sync_path f w2,
        posix.close_path f w3,
      )

  fill_file :
      (f : F) (raw : Bytes) (w : W)
      → (fill fs f raw w).1 ≡ none
      → fs.in_file (fill fs f raw w).0 f ≡ fs.in_file w f ++ raw
  unfolding fill
  fill_file f raw w h =
      let w1 = (fs.chmod f 0o600 w).0 in
      let w2 = (fs.write f raw w1).0 in
      let w3 = (fs.sync f w2).0 in
      ground (
        arith,
        posix.chmod_file f 0o600 w,
        posix.write_file f raw w1,
        posix.sync_file f w2,
        posix.close_file f w3,
      )

  settle_path : (d : D) (w : W) → fs.at_path (settle fs d w).0 ≡ fs.at_path w
  unfolding settle
  settle_path d w =
      ground (arith, posix.sync_dir_path d w, posix.close_dir_path d (fs.sync_dir d w).0)

  settle_committed : (d : D) (w : W) → (settle fs d w).2.committed ≡ true
  unfolding settle
  settle_committed d w = ground arith

  -- What a save leaves at the path, with an error where it is not the new file.
  abbrev pub Saves : Bytes → W → W → PersistResult → Type 0
  Saves raw w w' r =
      (fs.at_path w' ≡ (if r.committed then some raw else fs.at_path w))
      × ((r.committed || is_some r.error) ≡ true)

  replace-Saves :
      (d : D) (f : F) (raw : Bytes) (w : W)
      → fs.in_file w f ≡ []
      → Saves raw w (replace fs d f raw w).0 (replace fs d f raw w).3
  unfolding replace
  replace-Saves d f raw w h =
      let w1 = (fill fs f raw w).0 in
      let w2 = (fs.rename f w1).0 in
      (
        ground (
          arith,
          fill_path f raw w,
          fill_file f raw w,
          posix.rename_done f w1,
          posix.rename_failed f w1,
          settle_path d w2,
          settle_committed d w2,
        ),
        ground (arith, settle_committed d w2),
      )

  drops_path :
      (d : D) (f : F) (keep is_open : Bool) (w : W)
      → fs.at_path (drop_dir fs d is_open (drop_temp fs f keep w)) ≡ fs.at_path w
  unfolding drop_dir drop_temp
  drops_path d f keep is_open w =
      let w1 = (fs.close f w).0 in
      let w2 = (fs.remove f w1).0 in
      ground (
        arith,
        posix.close_path f w,
        posix.remove_path f w1,
        posix.close_dir_path d w1,
        posix.close_dir_path d w2,
      )

  drop_dir_path : (d : D) (w : W) → fs.at_path (drop_dir fs d true w) ≡ fs.at_path w
  unfolding drop_dir
  drop_dir_path d w = posix.close_dir_path d w

  -- A save of the token store is all or nothing, whichever of its steps fails: the file at the path
  -- has the new bytes where the result says that it is committed, and what it had before
  -- where not; and a save that is not committed returns an error.
  pub save-Saves : (raw : Bytes) (w : W) → Saves raw w (save fs raw w).0 (save fs raw w).1
  unfolding save
  save-Saves raw w =
      let w1 = (fs.mkdir_all 0o700 w).0 in
      let w2 = (fs.open_dir w1).0 in
      let w3 = (fs.create_temp w2).0 in
      let m = posix.mkdir_path 0o700 w in
      let o = posix.open_path w1 in
      let c = posix.create_path w2 in
      elim (Option-cases (fs.open_dir w1).1) [
        | inl e ↦ (ground (arith, e, m, o), ground (arith, e))
        | inr (d, e) ↦ elim (Option-cases (fs.create_temp w2).1) [
          | inl k ↦ (ground (arith, e, k, m, o, c, drop_dir_path d w3), ground (arith, e, k))
          | inr (f, k) ↦
              let r = replace-Saves d f raw w3 (posix.create_empty w2 f k) in
              (
                ground (
                  arith,
                  e,
                  k,
                  m,
                  o,
                  c,
                  r.0,
                  drops_path d f (replace fs d f raw w3).1 (replace fs d f raw w3).2
                      (replace fs d f raw w3).0,
                ),
                ground (arith, e, k, r.1),
              )
        ]
      ]
