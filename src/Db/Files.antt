-- ===== src/Db/Files.antt =====
-- What the managers rely on of the file system below the output directories: `os.path.exists`, and
-- `FileOperations.rm_tree` of owtf/utils/file.py, a wrapper of `shutil.rmtree`.
use owtf.Base.{String, Bool, false, ◌≡◌}

pub record Files : Type 1 where
  pub State : Type 0
  pub exists : String → State → Bool
  pub rm_tree : String → State → State
  pub exists-rm_tree : (p : String) (s : State) → exists p (rm_tree p s) ≡ false
  -- removing a tree creates nothing
  pub exists_of_rm_tree :
      (p q : String) (s : State) → exists p s ≡ false → exists p (rm_tree q s) ≡ false
