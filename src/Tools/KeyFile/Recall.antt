-- ===== src/Tools/KeyFile/Recall.antt =====
-- The application that is read is the one that was recorded.
use text.Mathlib.TextLemmas.{nil-append, cons-append, append_assoc}
use winchaos.Base.{
  ℕ, String, code, true, false, [], ◌⊎◌, inl, inr, ◌∷◌, ◌≡◌, refl, sym, ap, ◌∙◌, ◌==◌, ◌⧺◌, nat_eq,
  split, trim_left, trim_right, trim_space, cons-eq-empty, arith,
}
use winchaos.Base.TextLaws.{
  has_code, has_code-append, split-whole, split-append, cut-append, trim_right-append,
  trim_right-blank,
}
use winchaos.Base.Dict.{Dict}
use winchaos.Base.Exec.{ok, >>=-eq-ok, ok-injective}
use winchaos.Tools.KeyFile.{
  Files, line_of, take_lines, app_info, write_lines, record_map_to_file, record_application_to_file,
  read_app_info_from_file,
}

-- The two lines, with what follows the second separator.
abbrev two_lines : String → String → String → String → String
two_lines key next value rest =
    key ⧺ String.◌∷◌ "=" (value ⧺ String.◌∷◌ "\n" (next ⧺ String.◌∷◌ "=" rest))

equals-cons : (s : String) → "=" ⧺ s ≡ String.◌∷◌ "=" s
equals-cons s = cons-append "=" "" s ∙ ap (String.◌∷◌ "=") (nil-append s)

newline-cons : (s : String) → "\n" ⧺ s ≡ String.◌∷◌ "\n" s
newline-cons s = cons-append "\n" "" s ∙ ap (String.◌∷◌ "\n") (nil-append s)

line_of-append :
    (key value rest : String)
    → line_of key value ⧺ rest ≡ key ⧺ String.◌∷◌ "=" (value ⧺ String.◌∷◌ "\n" rest)
line_of-append key value rest =
    append_assoc key ("=" ⧺ (value ⧺ "\n")) rest
    ∙ ap (λ s. key ⧺ s)
        (append_assoc "=" (value ⧺ "\n") rest
          ∙ equals-cons ((value ⧺ "\n") ⧺ rest)
          ∙ ap (String.◌∷◌ "=")
              (append_assoc value "\n" rest ∙ ap (λ s. value ⧺ s) (newline-cons rest)))

lines-two_lines :
    (key next value last : String)
    → line_of key value ⧺ line_of next last ≡ two_lines key next value (last ⧺ "\n")
lines-two_lines key next value last =
    line_of-append key value (line_of next last)
    ∙ ap (λ s. key ⧺ String.◌∷◌ "=" (value ⧺ String.◌∷◌ "\n" (next ⧺ s)))
        (equals-cons (last ⧺ "\n"))

-- What stands before the second separator.
abbrev first_part : String → String → String → String
first_part key next value = key ⧺ String.◌∷◌ "=" (value ⧺ String.◌∷◌ "\n" next)

two_lines-first_part :
    (key next value rest : String)
    → two_lines key next value rest ≡ first_part key next value ⧺ String.◌∷◌ "=" rest
two_lines-first_part key next value rest =
    let t = String.◌∷◌ "=" rest in
    sym (
      append_assoc key (String.◌∷◌ "=" (value ⧺ String.◌∷◌ "\n" next)) t
      ∙ ap (λ s. key ⧺ s)
          (cons-append "=" (value ⧺ String.◌∷◌ "\n" next) t
            ∙ ap (String.◌∷◌ "=") (
                append_assoc value (String.◌∷◌ "\n" next) t
                ∙ ap (λ s. value ⧺ s) (cons-append "\n" next t))))

-- A name that the trimming leaves alone.
abbrev Stands : String → Type 0
Stands key = (s : String) → trim_left (key ⧺ s) ≡ key ⧺ s

instance-Stands : Stands "appInstance"
unfolding trim_left
instance-Stands s = let e = cons-append "a" "ppInstance" s in rw e refl

group-Stands : Stands "appGroup"
unfolding trim_left
group-Stands s = let e = cons-append "a" "ppGroup" s in rw e refl

trim_right-value :
    (value : String)
    → trim_right value ≡ value
    → trim_right (String.◌∷◌ "=" (value ⧺ "\n")) ≡ String.◌∷◌ "=" value
unfolding trim_right
trim_right-value value whole = rw (trim_right, trim_right-blank, whole) (ground arith)

trimmed :
    (key next value last : String)
    → Stands key
    → trim_right last ≡ last
    → trim_space (line_of key value ⧺ line_of next last) ≡ two_lines key next value last
unfolding trim_space
trimmed key next value last stands whole =
    let ends = trim_right-value last whole in
    let rest = String.◌∷◌ "=" (last ⧺ "\n") in
    let some_end : (trim_right rest == "") ≡ false = rw ends (cons-eq-empty "=" last) in
    ap (λ s. trim_right (trim_left s)) (lines-two_lines key next value last)
    ∙ ap trim_right (stands (String.◌∷◌ "=" (value ⧺ String.◌∷◌ "\n" (next ⧺ rest))))
    ∙ ap trim_right (two_lines-first_part key next value (last ⧺ "\n"))
    ∙ trim_right-append (first_part key next value) rest some_end
    ∙ ap (λ s. first_part key next value ⧺ s) ends
    ∙ sym (two_lines-first_part key next value last)

keyed-has_code :
    (sep : ℕ) (key value : String)
    → nat_eq (code "=") sep ≡ false
    → has_code sep key ≡ false
    → has_code sep value ≡ false
    → has_code sep (key ⧺ String.◌∷◌ "=" value) ≡ false
unfolding has_code
keyed-has_code sep key value differs k v =
    rw (has_code-append sep key (String.◌∷◌ "=" value), k, has_code, differs, v) refl

split-two_lines :
    (key next value last : String)
    → has_code b'\n' key ≡ false
    → has_code b'\n' next ≡ false
    → has_code b'\n' value ≡ false
    → has_code b'\n' last ≡ false
    → split b'\n' (two_lines key next value last)
      ≡ (key ⧺ String.◌∷◌ "=" value) ∷ (next ⧺ String.◌∷◌ "=" last) ∷ []
split-two_lines key next value last plain plain_next one_line last_line =
    let second = next ⧺ String.◌∷◌ "=" last in
    let behind = String.◌∷◌ "\n" second in
    let first = key ⧺ String.◌∷◌ "=" value in
    let apart : first ⧺ behind ≡ two_lines key next value last =
      append_assoc key (String.◌∷◌ "=" value) behind
      ∙ ap (λ s. key ⧺ s) (cons-append "=" value behind) in
    ap (split b'\n') (sym apart)
    ∙ split-append b'\n' first second "\n" refl (keyed-has_code b'\n' key value refl plain one_line)
    ∙ ap (λ l. first ∷ l)
        (split-whole b'\n' second (keyed-has_code b'\n' next last refl plain_next last_line))

-- The two orders of the lines.
module _ (app_instance group : String) (one_line : has_code b'\n' app_instance ≡ false)
    (last_line : has_code b'\n' group ≡ false) where
  app_info-instance_first :
      trim_right group ≡ group
      → app_info (line_of "appInstance" app_instance ⧺ line_of "appGroup" group)
        ≡ (app_instance, group)
  unfolding app_info take_lines has_code
  app_info-instance_first whole =
      ap (λ s. take_lines (split b'\n' s) ("", ""))
        (trimmed "appInstance" "appGroup" app_instance group instance-Stands whole)
      ∙ ap (λ l. take_lines l ("", ""))
          (split-two_lines "appInstance" "appGroup" app_instance group refl refl one_line last_line)
      ∙ rw
          (
            cut-append b'=' "appInstance" app_instance "=" refl refl,
            cut-append b'=' "appGroup" group "=" refl refl,
          )
          refl

  app_info-group_first :
      trim_right app_instance ≡ app_instance
      → app_info (line_of "appGroup" group ⧺ line_of "appInstance" app_instance)
        ≡ (app_instance, group)
  unfolding app_info take_lines has_code
  app_info-group_first whole =
      ap (λ s. take_lines (split b'\n' s) ("", ""))
        (trimmed "appGroup" "appInstance" group app_instance group-Stands whole)
      ∙ ap (λ l. take_lines l ("", ""))
          (split-two_lines "appGroup" "appInstance" group app_instance refl refl last_line one_line)
      ∙ rw
          (
            cut-append b'=' "appGroup" group "=" refl refl,
            cut-append b'=' "appInstance" app_instance "=" refl refl,
          )
          refl

module _ {X : Type 0} (files : Files X) (content : X → String) where
  -- What the agent relies on of the file of the application.
  pub record IsFile : Type 0 where
    pub open_empties :
        (x : X)
        → (files.open_file files.app_file true x).0 ≡ ok tt
        → content (files.open_file files.app_file true x).1 ≡ ""
    pub write_appends :
        (s : String) (x : X)
        → (files.write_string files.app_file s x).0 ≡ ok tt
        → content (files.write_string files.app_file s x).1 ≡ content x ⧺ s
    pub read_all :
        (x : X) {s : String} → (files.read_file files.app_file x).0 ≡ ok s → s ≡ content x
    -- A map of two keys is gone through in one order or the other.
    pub ranges :
        (first second : String × String) (x : X)
        → (files.range_of (first ∷ second ∷ []) x ≡ first ∷ second ∷ [])
          ⊎ (files.range_of (first ∷ second ∷ []) x ≡ second ∷ first ∷ [])

  module _ (file : IsFile) where
    written_lines :
        (first second : String × String) (x : X)
        → content x ≡ ""
        → (write_lines files files.app_file (first ∷ second ∷ []) x).0 ≡ ok tt
        → content (write_lines files files.app_file (first ∷ second ∷ []) x).1
          ≡ line_of first.0 first.1 ⧺ line_of second.0 second.1
    unfolding write_lines
    written_lines first second x empty h =
        let path = files.app_file in
        let l1 = line_of first.0 first.1 in
        let l2 = line_of second.0 second.1 in
        let (_, wrote, h2, e2) = >>=-eq-ok (files.write_string path l1) _ x h in
        let x2 = (files.write_string path l1 x).1 in
        let (_, wrote_all, _, e3) = >>=-eq-ok (files.write_string path l2) _ x2 h2 in
        ap (λ r. content r.1) (e2 ∙ e3)
        ∙ file.write_appends l2 x2 wrote_all
        ∙ ap (λ s. s ⧺ l2) (file.write_appends l1 x wrote ∙ ap (λ s. s ⧺ l1) empty ∙ nil-append l1)

    written_ranged :
        (first second : String × String) (x : X) (bindings : Dict String)
        → (bindings ≡ first ∷ second ∷ []) ⊎ (bindings ≡ second ∷ first ∷ [])
        → content x ≡ ""
        → (write_lines files files.app_file bindings x).0 ≡ ok tt
        → let now = content (write_lines files files.app_file bindings x).1 in
          (now ≡ line_of first.0 first.1 ⧺ line_of second.0 second.1)
          ⊎ (now ≡ line_of second.0 second.1 ⧺ line_of first.0 first.1)
    written_ranged first second x bindings (inl e) empty h =
        inl (rw e (written_lines first second x empty (rw e at h)))
    written_ranged first second x bindings (inr e) empty h =
        inr (rw e (written_lines second first x empty (rw e at h)))

    written :
        (first second : String × String) (x : X)
        → (record_map_to_file files (first ∷ second ∷ []) files.app_file true x).0 ≡ ok tt
        → let now =
            content (record_map_to_file files (first ∷ second ∷ []) files.app_file true x).1 in
          (now ≡ line_of first.0 first.1 ⧺ line_of second.0 second.1)
          ⊎ (now ≡ line_of second.0 second.1 ⧺ line_of first.0 first.1)
    unfolding record_map_to_file
    written first second x h =
        let path = files.app_file in
        let (_, opened, h1, e1) = >>=-eq-ok (files.open_file path true) _ x h in
        let x1 = (files.open_file path true x).1 in
        let bindings = files.range_of (first ∷ second ∷ []) x1 in
        rw e1 (
          written_ranged first second x1 bindings (file.ranges first second x1)
            (file.open_empties x opened) h1)

    read_back :
        (x : X) {app : String × String}
        → (read_app_info_from_file files x).0 ≡ ok app
        → app ≡ app_info (content x)
    unfolding read_app_info_from_file
    read_back x h =
        let (s, got, made, _) = >>=-eq-ok (files.read_file files.app_file) _ x h in
        sym (ok-injective made) ∙ ap app_info (file.read_all x got)

-- An application of two texts without line breaks that do not end in blanks is read back as it was
-- recorded, in whichever order its two lines were written, if the file was emptied first and
-- neither call fails.
pub app_info-recorded :
    {X : Type 0} (files : Files X) (content : X → String)
    → IsFile files content
    → (app_instance group : String) (x : X) {app : String × String}
    → has_code b'\n' app_instance ≡ false
    → has_code b'\n' group ≡ false
    → trim_right app_instance ≡ app_instance
    → trim_right group ≡ group
    → (record_application_to_file files app_instance group true x).0 ≡ ok tt
    → (read_app_info_from_file files
        (record_application_to_file files app_instance group true x).1).0
      ≡ ok app
    → app ≡ (app_instance, group)
unfolding record_application_to_file
app_info-recorded files content file app_instance group x one_line last_line trim_instance
      trim_group recorded read =
    let first : String × String = ("appInstance", app_instance) in
    let second : String × String = ("appGroup", group) in
    read_back files content file _ read
    ∙ elim (written files content file first second x recorded) [
      | inl text ↦
          ap app_info text
          ∙ app_info-instance_first app_instance group one_line last_line trim_group
      | inr text ↦
          ap app_info text
          ∙ app_info-group_first app_instance group one_line last_line trim_instance
    ]
