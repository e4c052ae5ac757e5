-- ===== src/Identity.antt =====
-- src/agent_identity.rs: the agent's id, kept in a file below the home directory. The file system, the
-- paths and the generator of ids are parameters.
pub mod Stable
use ocellus_network_monitor.Prelude.{
  ℕ, Bool, true, false, Option, none, some, String, List, [], ◌∷◌, ◌≡◌,
}
use ocellus_network_monitor.Text.{Str, trim}

-- The file system: a call that can fail answers whether it succeeded. A written file reads back as what
-- was written.
pub record FileSystem : Type 1 where
  pub Files : Type 0
  pub PathBuf : Type 0
  pub join : PathBuf → String → PathBuf
  pub parent : PathBuf → Option PathBuf
  pub read_to_string : Files → PathBuf → Option Str
  pub create_dir_all : Files → PathBuf → Bool × Files
  pub write : Files → PathBuf → Str → Bool × Files
  pub read-write :
      (fs fs' : Files) (p : PathBuf) (s : Str)
      → write fs p s ≡ (true, fs')
      → read_to_string fs' p ≡ some s

module _ (system : FileSystem) where
  open system use {Files, PathBuf, join, parent, read_to_string, create_dir_all, write}

  abbrev pub in_home : Option PathBuf → Option PathBuf
  in_home none = none
  in_home (some home) = some (join (join home ".monitor-agent") "agent_id")

  -- From the home directory, where there is one.
  unfoldable pub identity_path : Option PathBuf → Option PathBuf
  identity_path home_dir = in_home home_dir

  abbrev pub unless_empty : Str → Option Str
  unless_empty [] = none
  unless_empty (c ∷ s) = some (c ∷ s)

  -- The text of a file that has one.
  abbrev pub existing_id : Option Str → Option Str
  existing_id none = none
  existing_id (some existing) = unless_empty (trim existing)

  abbrev pub create_parent : Files → Option PathBuf → Bool × Files
  create_parent fs none = (true, fs)
  create_parent fs (some dir) = create_dir_all fs dir

  abbrev pub write_if : Bool × Files → PathBuf → Str → Files
  write_if (false, fs) path id = fs
  write_if (true, fs) path id = (write fs path id).1

  abbrev pub reuse : Files → PathBuf → Str → Option Str → Str × Files
  reuse fs path id (some existing) = (existing, fs)
  reuse fs path id none = (id, write_if (create_parent fs (parent path)) path id)

  abbrev pub resolve_at : Files → Str → Option PathBuf → Str × Files
  resolve_at fs id none = (id, fs)
  resolve_at fs id (some path) = reuse fs path id (existing_id (read_to_string fs path))

  -- The id and the files after it, with the id that `Uuid::new_v4` would make.
  unfoldable pub resolve : Option PathBuf → Files → Str → Option Str → Str × Files
  resolve home_dir fs new_id (some id) = (id, fs)
  resolve home_dir fs new_id none = resolve_at fs new_id (identity_path home_dir)
