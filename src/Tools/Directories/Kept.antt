-- ===== src/Tools/Directories/Kept.antt =====
-- pkg/tools/env.go: a directory is looked for once.
use winchaos.Base.{
  String, Option, none, some, false, ◌≡◌, ◌≢◌, refl, sym, ap, ◌∙◌, ◌==◌, eq_iff, Bool-cases, inl,
  inr, arith,
}
use winchaos.Base.Exec.{Flow, ok, err, panic, no_fuel, >>=-eq-ok, ok-injective}
use winchaos.Bash.{is_exist}
use winchaos.Tools.Directories.{
  Paths, Disk, Slot, metric, agent, name_of, get_slot, put_slot, get_current_directory, made,
  ensured, found, keep_found, get_directory,
}

module _ {W : Type 0} (disk : Disk W) (joined : (a b : String) → disk.join a b ≢ "") where
  get_slot-put_slot :
      (slot : Slot) (dir : String) (p : Paths) → get_slot slot (put_slot slot dir p) ≡ dir
  unfolding get_slot put_slot
  get_slot-put_slot metric dir p = refl
  get_slot-put_slot agent dir p = refl

  made-same :
      (dir : String) (p : Paths) (r : Option String × W) {d : String}
      → (made disk dir p r).0 ≡ ok d
      → d ≡ dir
  made-same dir p (none, w) h = cc
  made-same dir p (some x, w) h = cc

  ensured-same :
      (dir : String) (s : Paths × W) {d : String} → (ensured disk dir s).0 ≡ ok d → d ≡ dir
  unfolding ensured
  ensured-same dir (p, w) h = elim (Bool-cases (is_exist (disk.stat dir w))) [
    | inl there ↦ cc (rw there at h)
    | inr absent ↦ made-same dir p (disk.mkdir_all dir w) (rw absent at h)
  ]

  found-some : (slot : Slot) (s : Paths × W) {d : String} → (found disk slot s).0 ≡ ok d → d ≢ ""
  unfolding found
  found-some slot s h e =
      let (dir, _, ends, _) = >>=-eq-ok (get_current_directory disk) _ s h in
      joined dir (name_of slot) (sym (ensured-same _ _ ends) ∙ e)

  -- What is known is returned, and nothing is done.
  abbrev IsKnown : Slot → String → Paths × W → Type 0
  IsKnown slot d s = get_directory disk slot s ≡ (ok d, s)

  get_slot-IsKnown :
      (slot : Slot) (d : String) (p : Paths) (w : W)
      → get_slot slot p ≡ d
      → d ≢ ""
      → IsKnown slot d (p, w)
  unfolding get_directory
  get_slot-IsKnown slot d p w same some_text =
      let nonempty : (get_slot slot p == "") ≡ false =
        ground (arith, eq_iff (get_slot slot p) "", some_text) in
      rw nonempty (ap (λ e. (ok e, (p, w))) same)

  kept-IsKnown :
      (slot : Slot) (r : Flow Unit String × (Paths × W)) {d : String}
      → (keep_found disk slot r).0 ≡ ok d
      → d ≢ ""
      → (r.0 ≡ ok d) × IsKnown slot d (keep_found disk slot r).1
  kept-IsKnown slot (ok dir, (p, w)) {d} h some_text =
      let same : dir ≡ d = ok-injective h in
      (
        h,
        get_slot-IsKnown slot d (put_slot slot dir p) w (get_slot-put_slot slot dir p ∙ same)
            some_text,
      )
  kept-IsKnown slot (err u, s) h some_text = cc
  kept-IsKnown slot (panic, s) h some_text = cc
  kept-IsKnown slot (no_fuel, s) h some_text = cc

  keep_found-from :
      (slot : Slot) (r : Flow Unit String × (Paths × W)) {d : String}
      → (keep_found disk slot r).0 ≡ ok d
      → r.0 ≡ ok d
  keep_found-from slot (ok dir, (p, w)) h = h
  keep_found-from slot (err u, s) h = cc
  keep_found-from slot (panic, s) h = cc
  keep_found-from slot (no_fuel, s) h = cc

-- The directory of metrics, or of agents, that was found once is returned from then on, and nothing
-- of the file system is touched again, if joined paths are not empty.
pub get_directory_again :
    {W : Type 0} (disk : Disk W)
    → ((a b : String) → disk.join a b ≢ "")
    → (slot : Slot) (p : Paths) (w : W) {d : String} → (get_directory disk slot (p, w)).0 ≡ ok d
    → get_directory disk slot (get_directory disk slot (p, w)).1
      ≡ (ok d, (get_directory disk slot (p, w)).1)
unfolding get_directory
get_directory_again disk joined slot p w {d} h = elim (Bool-cases (get_slot slot p == "")) [
  | inl unknown ↦
      let found_now = rw unknown at h in
      let some_text =
        found-some disk joined slot (p, w) (keep_found-from disk joined slot _ found_now) in
      rw unknown ((kept-IsKnown disk joined slot (found disk slot (p, w)) found_now some_text).1)
  | inr known ↦
      let same : get_slot slot p ≡ d = ok-injective (rw known at h) in
      rw known (rw known (ap (λ e. (ok e, (p, w))) same))
]
