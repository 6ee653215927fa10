-- ===== src/Options/Blade/Version.antt =====
-- Which texts have a version, and which it is.
use winchaos.Base.{
  String, Bool, true, List, [], ◌∷◌, ◌≡◌, refl, ◌↔◌, split, has_prefix, trim_space, Bool-cases,
  no_both, inl, inr,
}
use winchaos.Base.Exec.{Result, value, failure}
use winchaos.Base.Splitting.{Halves, split_two, split-Halves}
use winchaos.Bash.{Shell, is_exist, exec_script}
use winchaos.Options.Blade.{
  first_part, behind_colon, version_of, blade_bin_path, get_chaosblade_version,
}

-- The first line of the text, without the blanks around the text.
abbrev pub first_line : String → String
first_line output = first_part (split b'\n' (trim_space output))

-- The first line is `version`, in any continuation, then a colon and the version, perhaps among
-- blanks, and no other colon.
abbrev pub HasVersion : String → String → Type 0
HasVersion output version =
    (has_prefix "version" (first_line output) ≡ true)
    × ((name : String) × (rest : String) × Halves b':' (first_line output) name rest
        × (version ≡ trim_space rest))

behind_colon_two :
    (line version : String) (parts : List String)
    → behind_colon line parts ≡ value version
    → (name : String) × (rest : String) × (parts ≡ name ∷ rest ∷ []) × (version ≡ trim_space rest)
behind_colon_two line version [] h = cc
behind_colon_two line version (a ∷ []) h = cc
behind_colon_two line version (a ∷ b ∷ []) h = (a, b, refl, cc)
behind_colon_two line version (a ∷ b ∷ c ∷ parts) h = cc

unnamed : {x : String} (version : String) → ◌≡◌ {A = Result String} (failure x) (value version) → ⊥
unnamed version h = cc

version_of-HasVersion :
    (output version : String) → (version_of output ≡ value version) ↔ HasVersion output version
unfolding version_of
version_of-HasVersion output version = (
  λ h. elim (Bool-cases (has_prefix "version" (first_line output))) [
    | inl named ↦
        let (name, rest, parts, e) =
          behind_colon_two (first_line output) version _ (rw named at h) in
        (named, (name, rest, split_two b':' _ name rest parts, e))
    | inr other ↦ absurd (unnamed version (rw other at h))
  ],
  λ h.
      let (named, (name, rest, halves, e)) = h in
      rw (named, split-Halves b':' _ name rest halves, e) refl,
)

-- A version is returned just where the program blade is there, its command `version` succeeds, and
-- the first line that it prints, blanks around the output aside, begins with `version` and has one
-- colon: it is what follows the colon, without the blanks around it.
pub get_chaosblade_version-HasVersion :
    {W : Type 0} (shell : Shell W) (errorf : String → String) (windows : Bool) (w : W)
    (version : String)
    → ((get_chaosblade_version shell errorf windows w).0 ≡ value version) ↔ (
        (is_exist (shell.stat (blade_bin_path windows) w) ≡ true)
        × ((exec_script shell (blade_bin_path windows) "version" w).0.success ≡ true)
        × HasVersion (exec_script shell (blade_bin_path windows) "version" w).0.output version)
unfolding get_chaosblade_version
get_chaosblade_version-HasVersion shell errorf windows w version =
    let r = (exec_script shell (blade_bin_path windows) "version" w).0 in
    let spells = version_of-HasVersion r.output version in
    elim (Bool-cases (is_exist (shell.stat (blade_bin_path windows) w))) [
      | inr missing ↦
          (λ h. absurd (unnamed version (rw missing at h)), λ h. absurd (no_both _ h.0 missing))
      | inl there ↦ elim (Bool-cases r.success) [
        | inr failed ↦ (
          λ h. absurd (unnamed version (rw (there, failed) at h)),
          λ h. absurd (no_both _ h.1 failed),
        )
        | inl done ↦ (
          λ h. (there, done, spells.0 (rw (there, done) at h)),
          λ h. rw (there, done) (spells.1 h.2),
        )
      ]
    ]
