-- ===== src/Cmdexec/Script/Whole.antt =====
-- Scripts from the request on: what is done before the record is inserted leaves the table alone.
use winchaos.Base.{
  ℕ, String, ◌||◌, List, [], ◌∷◌, Option, none, ◌≡◌, refl, sym, ap, ◌∙◌, ◌==◌, ◌⧺◌, join, inl, inr,
  Bool-cases, eq_refl,
}
use winchaos.Base.Decimal.{itoa_ℕ}
use winchaos.Base.Exec.{Flow, ok, err, panic, no_fuel, Exec, gets, settle, continue, or_else, ◌>>=◌}
use winchaos.Data.Model.{ExperimentModel}
use winchaos.Data.Source.{SourceI, IsSource}
use winchaos.Cmdexec.Host.{Stat, present, missing, unknown, TarItem, entry, broken, Host, IsApart}
use winchaos.Cmdexec.Uid.{generate_uid, generate_uid_fresh}
use winchaos.Cmdexec.Frame.{Keeps, Same, >>=-Keeps, settle_keeps, generate_uid-Keeps}
use winchaos.Cmdexec.Script.{
  exec_script, run_main, record_and_run, script_path, command_line, script_model,
}
use winchaos.Cmdexec.Script.Files.{
  base, is_exist_dir, make_unless, download_file, un_tar, unpack, list_dir,
}
use winchaos.Cmdexec.Script.Recorded.{Recorded, Inserted, run_script-Recorded}

module _ {W : Type 0} (host : Host W) (find : W → String → Option ExperimentModel)
    (apart : IsApart host find) where
  make_unless-Keeps : (dir : String) (s : Stat) → Keeps find (make_unless host dir s)
  unfolding make_unless
  make_unless-Keeps dir present w k = refl
  make_unless-Keeps dir missing w k = apart.mkdir_keeps dir w k
  make_unless-Keeps dir (unknown x) w k = refl

  is_exist_dir-Keeps : (dir : String) → Keeps find (is_exist_dir host dir)
  unfolding is_exist_dir
  is_exist_dir-Keeps dir w k = make_unless-Keeps dir (host.stat dir w) w k

  download_file-Keeps : (url path : String) → Keeps find (download_file host url path)
  unfolding download_file
  download_file-Keeps url path = >>=-Keeps find (host.http_get url) _ (apart.get_keeps url) (λ body.
      >>=-Keeps find (host.create path) _ (apart.create_keeps path)
        (λ u. apart.copy_to_keeps path body))

  unpack-Keeps : (dir : String) (items : List TarItem) → Keeps find (unpack host dir items)
  unfolding unpack
  unpack-Keeps dir [] = λ w k. refl
  unpack-Keeps dir (broken x ∷ items) = λ w k. refl
  unpack-Keeps dir (entry name mode ∷ items) =
      >>=-Keeps find (or_else (λ x. tt) (host.mkdir_all (host.dir_name name))) _
        (λ w k. settle_keeps find _ (host.mkdir_all _ w) k ∙ apart.mkdir_keeps _ w k)
        (λ u.
          >>=-Keeps find (host.open_file (dir ⧺ name) mode) _ (apart.open_file_keeps _ mode) (λ u.
            >>=-Keeps find (host.copy_item (dir ⧺ name) name) _ (apart.copy_item_keeps _ name)
              (λ u. unpack-Keeps dir items)))

  un_tar-Keeps : (archive dir : String) → Keeps find (un_tar host archive dir)
  unfolding un_tar
  un_tar-Keeps archive dir =
      >>=-Keeps find (host.open_tar archive) _ (apart.open_tar_keeps archive) (unpack-Keeps dir)

  list_dir-Keeps : (dir : String) → Keeps find (or_else (λ x. ("", "")) (list_dir host dir))
  unfolding list_dir
  list_dir-Keeps dir w k =
      settle_keeps find _ (list_dir host dir w) k
      ∙ >>=-Keeps find (host.read_dir dir) _ (apart.read_dir_keeps dir) (λ names w k. refl) w k

module _ {W : Type 0} (host : Host W) (ds : SourceI W) (find : W → String → Option ExperimentModel)
    (apart : IsApart host find) (law : IsSource ds find) where
  continue-Recorded :
      {A : Type 0} (flag : String) (w : W) (r : Flow String A × W) (f : A → Exec W String String)
      → Same find w r.1
      → ((a : A) (v : W) → r ≡ (ok a, v) → Same find w v → Recorded host ds find flag w (f a v))
      → Recorded host ds find flag w (continue r f)
  continue-Recorded flag w (ok a, v) f same h = h a v refl same
  continue-Recorded flag w (err x, v) f same h = inl same
  continue-Recorded flag w (panic, v) f same h = tt
  continue-Recorded flag w (no_fuel, v) f same h = tt

  -- A call that leaves the table alone, before the rest.
  after :
      {A : Type 0} (flag : String) (m : Exec W String A) (f : A → Exec W String String)
      → Keeps find m
      → ((a : A) (w v : W) → Same find w v → Recorded host ds find flag w (f a v))
      → (w v : W) → Same find w v
      → Recorded host ds find flag w ((m >>= f) v)
  after flag m f keeps h w v same =
      continue-Recorded flag w (m v) f (λ k. keeps v k ∙ same k) (λ a v' e. h a w v')

  insert-Inserted :
      (m : ExperimentModel) (w v : W) (r : Flow String Unit × W) (rest : Exec W String String)
      → find w m.uid ≡ none
      → Same find w v
      → r ≡ ds.insert_experiment_model m v
      → ((v' : W) → Inserted host ds find m w v' → Recorded host ds find (m.flag) w (rest v'))
      → Recorded host ds find (m.flag) w (continue {E = String} (settle (λ x. tt) r) (λ u. rest))
  insert-Inserted m w v (ok u, v') rest fresh same e h =
      let adds =
        λ (k : String). ap (λ a. find a.1 k) e ∙ law.insert_adds m k v (sym (ap (λ r. r.0) e)) in
      h v'
        (fresh, (λ k other. adds k ∙ rw other (same k)), inr (adds m.uid ∙ rw (eq_refl m.uid) refl))
  insert-Inserted m w v (err x, v') rest fresh same e h =
      let failed = sym (ap (λ r. r.0) e) in
      let kept =
        λ (k : String). ap (λ a. find a.1 k) e ∙ law.insert_fails m k v x failed ∙ same k in
      h v' (fresh, (λ k other. kept k), inl (kept m.uid ∙ fresh, (v, x, same, failed)))
  insert-Inserted m w v (panic, v') rest fresh same e h = tt
  insert-Inserted m w v (no_fuel, v') rest fresh same e h = tt

  record_and_run-Recorded :
      (uid dir timeout path file_type : String) (args : List String) (w v : W)
      → find w uid ≡ none
      → Same find w v
      → Recorded host ds find
          (join "," args)
          w
          (record_and_run host ds uid dir args timeout path file_type v)
  unfolding record_and_run
  record_and_run-Recorded uid dir timeout path file_type args w v fresh same =
      let flag = join "," args in
      insert-Inserted (script_model host ds uid dir flag (host.now v)) w v _ _ fresh same refl
        (λ v'.
          run_script-Recorded host ds find apart law uid dir flag (host.now v) timeout path
            (command_line file_type path args) w v')

  run_main-Recorded :
      (fuel : ℕ) (dir timeout path filename file_type : String) (args : List String) (w v : W)
      → Same find w v
      → Recorded host ds find
          (join "," args)
          w
          (run_main host ds fuel dir args timeout path filename file_type v)
  unfolding run_main
  run_main-Recorded fuel dir timeout path filename file_type args w v same =
      elim (Bool-cases (filename == "" || file_type == "")) [
        | inl lacks ↦ rw lacks (inl same)
        | inr there ↦ rw there (
            continue-Recorded (join "," args) w (generate_uid host ds fuel v) _
              (λ k. generate_uid-Keeps host ds find apart law fuel v k ∙ same k)
              (λ uid v' drawn same'.
                let (fresh, _) =
                  generate_uid_fresh host ds find apart law fuel v (ap (λ r. r.0) drawn) in
                record_and_run-Recorded uid dir timeout path file_type args w v'
                  (sym (same uid) ∙ fresh) same'))
      ]

  exec_script-Recorded :
      (fuel : ℕ) (url timeout recover : String) (args : List String) (w v : W)
      → Same find w v
      → Recorded host ds find
          (join "," args)
          w
          (exec_script host ds fuel url args timeout recover v)
  unfolding exec_script
  exec_script-Recorded fuel url timeout recover args =
      let flag = join "," args in
      after flag host.getwd _ apart.getwd_keeps (λ current.
        after flag (gets host.unix_time) _ (λ w k. refl)
          (λ seconds.
            let dir = current ⧺ "/" ⧺ itoa_ℕ seconds ⧺ "/" in
            let archive = dir ⧺ base url in
            after flag (is_exist_dir host dir) _ (is_exist_dir-Keeps host find apart dir) (λ u.
              after flag (download_file host url archive) _
                (download_file-Keeps host find apart url archive)
                (λ u.
                  after flag (un_tar host archive dir) _ (un_tar-Keeps host find apart archive dir)
                    (λ u.
                      after flag (or_else (λ x. ("", "")) (list_dir host dir)) _
                        (list_dir-Keeps host find apart dir)
                        (λ main w v.
                          run_main-Recorded fuel dir timeout
                            (script_path recover dir archive main.0 main.1) main.0 main.1 args w
                            v))))))

-- A script, from the download of its archive on, wherever it fails. If a uid is returned, no record
-- had it, and it now has the record of a script with the arguments, marked with `Success` and no
-- error text. If an error is returned, no record has changed; or a uid that no record had has such
-- a record, marked with `Error` and the text of the error; or the main file is of no kind that is
-- run, and the record has the status of its start. A mark is missing only where the update failed,
-- and the record only where its insertion failed, made while the records were as before the script.
-- Every other record is as it was.
pub exec_script_records :
    {W : Type 0} (host : Host W) (ds : SourceI W) (find : W → String → Option ExperimentModel)
    → IsApart host find
    → IsSource ds find
    → (fuel : ℕ) (url timeout recover : String) (args : List String) (w : W)
    → Recorded host ds find (join "," args) w (exec_script host ds fuel url args timeout recover w)
exec_script_records host ds find apart law fuel url timeout recover args w =
    exec_script-Recorded host ds find apart law fuel url timeout recover args w w (λ k. refl)
