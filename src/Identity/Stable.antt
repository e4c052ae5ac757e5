-- ===== src/Identity/Stable.antt =====
-- The agent's id across restarts.
mod Tests
use ocellus_network_monitor.Prelude.{
  ℕ, ◌≡◌, ◌≢◌, refl, sym, ◌∙◌, ap, subst, Bool, true, false, Option, none, some, List, [], ◌∷◌,
}
use ocellus_network_monitor.Text.{Str, trim}
use ocellus_network_monitor.Identity.{
  FileSystem, identity_path, existing_id, unless_empty, create_parent, write_if, reuse, resolve_at,
  resolve,
}

module _ (system : FileSystem) where
  open system use {Files, PathBuf, parent, read_to_string, write, read-write}

  -- A new id can be stored at the path.
  abbrev pub Stores : Files → PathBuf → Str → Type 0
  Stores fs path id =
      (fs' : Files) × (fs'' : Files) × (create_parent system fs (parent path) ≡ (true, fs'))
      × (write fs' path id ≡ (true, fs''))

  existing-trimmed : (id : Str) → trim id ≡ id → id ≢ [] → existing_id system (some id) ≡ some id
  existing-trimmed [] e h = absurd (h refl)
  existing-trimmed (c ∷ s) e h = ap (unless_empty system) e

  -- Where the home directory is known, and a new id, which is neither empty nor has white space at its
  -- ends, can be stored: a first start without an id on the command line, with an id in the file or not,
  -- is followed by starts that resolve to the same id and leave the files alone, whatever ids the
  -- generator would make for them.
  pub resolve-stable :
      (home_dir : Option PathBuf) (path : PathBuf) (fs : Files) (new_id other : Str)
      → identity_path system home_dir ≡ some path
      → trim new_id ≡ new_id
      → new_id ≢ []
      → Stores fs path new_id
      → let (id, fs') = resolve system home_dir fs new_id none in
        resolve system home_dir fs' other none ≡ (id, fs')
  unfolding resolve
  resolve-stable home_dir path fs new_id other at trimmed filled stores =
      subst
        (λ p.
          let (id, fs') = resolve_at system fs new_id p in
          resolve_at system fs' other p ≡ (id, fs'))
        (sym at) (by_existing (existing_id system (read_to_string fs path)) refl)
    where
      by_existing :
          (o : Option Str)
          → existing_id system (read_to_string fs path) ≡ o
          → let (id, fs') = reuse system fs path new_id o in
            resolve_at system fs' other (some path) ≡ (id, fs')
      by_existing (some id) e = ap (reuse system fs path other) e
      by_existing none e =
          let (fs', fs'', made, written) = stores in
          let stored : write_if system (create_parent system fs (parent path)) path new_id ≡ fs'' =
            ap (λ p. write_if system p path new_id) made ∙ ap (λ p. p.1) written in
          let found : existing_id system (read_to_string fs'' path) ≡ some new_id =
            ap (existing_id system) (read-write fs' fs'' path new_id written)
            ∙ existing-trimmed new_id trimmed filled in
          subst
            (λ f.
              reuse system f path other (existing_id system (read_to_string f path)) ≡ (new_id, f))
            (sym stored) (ap (reuse system fs'' path other) found)
