-- ===== src/Identity/Stable/Tests.antt =====
-- A file system of one file, and an agent that starts twice.
use ocellus_network_monitor.Prelude.{ℕ, ◌≡◌, refl, Bool, true, none, some, Option, [], ◌∷◌}
use ocellus_network_monitor.Text.{Str, trim, trim_start, trim_end, is_whitespace}
use ocellus_network_monitor.Identity.{FileSystem, identity_path, resolve}
use ocellus_network_monitor.Identity.Stable.{resolve-stable}

stored :
    (fs' : Option Str) (s : Str)
    → Path (Bool × Option Str) (true, some s) (true, fs')
    → fs' ≡ some s
stored fs' s h = cc

abbrev one_file : FileSystem
one_file = record {
  Files = Option Str;
  PathBuf = ℕ;
  join = λ p s. p;
  parent = λ p. some 0;
  read_to_string = λ fs p. fs;
  create_dir_all = λ fs p. (true, fs);
  write = λ fs p s. (true, some s);
  read-write = λ fs fs' p s h. stored fs' s h;
}

abbrev id_one : Str
id_one = b'1' ∷ b'a' ∷ []

abbrev id_two : Str
id_two = b'2' ∷ b'b' ∷ []

-- The file's text loses its line feed.
kept_id :
    resolve one_file (some 7) (some (b'x' ∷ 10 ∷ [])) id_one none
    ≡ (b'x' ∷ [], some (b'x' ∷ 10 ∷ []))
unfolding resolve identity_path trim trim_start trim_end is_whitespace
kept_id = refl

one-trimmed : trim id_one ≡ id_one
unfolding trim trim_start trim_end is_whitespace
one-trimmed = refl

resolve-stable_example :
    let (id, fs') = resolve one_file (some 7) none id_one none in
    resolve one_file (some 7) fs' id_two none ≡ (id, fs')
unfolding identity_path
resolve-stable_example =
    resolve-stable one_file (some 7) 7 none id_one id_two refl one-trimmed (λ e. cc)
      (none, some id_one, refl, refl)
