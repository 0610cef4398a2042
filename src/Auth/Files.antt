-- ===== src/Auth/Files.antt =====
-- store.go: the file system of the token store, behind its interface, and persistLocked from the
-- encoded records on: a temporary file that is renamed over the store.
pub mod Atomic
use openwrt_wattline.Common.{ℕ, Bool, true, false, not, Option, none, some, if◌then◌else◌}
use openwrt_wattline.Common.Bytes.{Bytes}
use openwrt_wattline.Auth.Tokens.{
  StoreError, create_directory, open_directory, create_temporary, set_mode, write_failed,
  sync_failed, close_failed, replace_failed, sync_directory, close_directory,
}

-- os.ReadFile: the contents, os.ErrNotExist, or another error
pub data FileRead : Type 0 where
  contents : Bytes → FileRead
  not_exist unreadable : FileRead

-- `fileSystem`, `atomicFile` and `syncCloser` at the path of the store: `W` is the state of the
-- system, `F` an open temporary file, `D` an open directory. A Bool is true where there is no error.
-- What stands at the path and in a file is for the theorems.
pub record FileSystem (W F D : Type 0) : Type 0 where
  pub read_file : W → W × FileRead
  pub stat : W → W × Option ℕ
  pub mkdir_all : ℕ → W → W × Bool
  pub open_dir : W → W × Option D
  pub create_temp : W → W × Option F
  pub chmod : F → ℕ → W → W × Bool
  pub write : F → Bytes → W → W × Bool
  pub sync : F → W → W × Bool
  pub close : F → W → W × Bool
  pub rename : F → W → W × Bool
  pub remove : F → W → W × Bool
  pub sync_dir : D → W → W × Bool
  pub close_dir : D → W → W × Bool
  pub at_path : W → Option Bytes
  pub in_file : W → F → Bytes

-- persistResult
pub record PersistResult : Type 0 where
  pub committed : Bool
  pub error : Option StoreError

abbrev pub failed : StoreError → PersistResult
failed e = record { committed = false; error = some e }

module _ {W F D : Type 0} (fs : FileSystem W F D) where
  -- from Chmod to the Close of the temporary file
  unfoldable pub fill : F → Bytes → W → W × Option StoreError
  fill f raw w =
      let (w1, ok1) = fs.chmod f 0o600 w in
      let (w2, ok2) = fs.write f raw w1 in
      let (w3, ok3) = fs.sync f w2 in
      let (w4, ok4) = fs.close f w3 in
      if not ok1
      then (w1, some set_mode)
      else if not ok2
      then (w2, some write_failed)
      else if not ok3
      then (w3, some sync_failed)
      else if not ok4
      then (w4, some close_failed)
      else (w4, none)

  -- from the Sync of the directory on; the flag is `directoryOpen` at the return
  unfoldable pub settle : D → W → W × Bool × PersistResult
  settle d w =
      let (w1, ok1) = fs.sync_dir d w in
      let (w2, ok2) = fs.close_dir d w1 in
      if not ok1
      then (w1, true, record { committed = true; error = some sync_directory })
      else if not ok2
      then (w2, false, record { committed = true; error = some close_directory })
      else (w2, false, record { committed = true; error = none })

  -- from Chmod on; the first flag is `keep`, the second `directoryOpen`
  unfoldable pub replace : D → F → Bytes → W → W × Bool × Bool × PersistResult
  replace d f raw w =
      let (w1, e1) = fill f raw w in
      let (w2, renamed) = fs.rename f w1 in
      let (w3, is_open, result) = settle d w2 in
      elim e1 [
        | some e ↦ (w1, false, true, failed e)
        | none ↦
            if not renamed
            then (w2, false, true, failed replace_failed)
            else (w3, true, is_open, result)
      ]

  -- the deferred functions
  unfoldable pub drop_temp : F → Bool → W → W
  drop_temp f keep w = let w1 = (fs.close f w).0 in if not keep then (fs.remove f w1).0 else w1

  unfoldable pub drop_dir : D → Bool → W → W
  drop_dir d is_open w = if is_open then (fs.close_dir d w).0 else w

  -- persistLocked behind the encoding
  unfoldable pub save : Bytes → W → W × PersistResult
  save raw w =
      let (w1, made) = fs.mkdir_all 0o700 w in
      let (w2, directory) = fs.open_dir w1 in
      if not made then (w1, failed create_directory) else elim directory [
        | none ↦ (w2, failed open_directory)
        | some d ↦
            let (w3, temp) = fs.create_temp w2 in
            elim temp [
              | none ↦ (drop_dir d true w3, failed create_temporary)
              | some f ↦
                  let (w4, keep, is_open, result) = replace d f raw w3 in
                  (drop_dir d is_open (drop_temp f keep w4), result)
            ]
      ]
