-- ===== src/Category/Cpu/Feed/Delivered.antt =====
-- web/category/cpu_main.go: what becomes of the quotas in the channel.
use mathlib.Core.List.{append_assoc, append-nil}
use winchaos.Base.{
  ℕ, zero, suc, List, [], ◌∷◌, ◌++◌, ◌≡◌, ◌≤◌, refl, sym, ap, ◌∙◌, length, length-append, ℤ, arith,
}
use winchaos.Category.Cpu.Feed.{State, begin, Step, measures, sends, receives, Reaches, start, next}

abbrev pub repeat : ℕ → ℤ → List ℤ
repeat zero q = []
repeat (suc n) q = q ∷ repeat n q

-- Each quota as often as there are goroutines.
abbrev pub spread : ℕ → List ℤ → List ℤ
spread count [] = []
spread count (q ∷ rounds) = repeat count q ++ spread count rounds

abbrev pub IsFed : ℕ → State → Type 0
IsFed count s =
    (length s.channel ≤ count)
    × (spread count s.rounds ≡ s.received ++ s.channel ++ repeat s.pending s.quota)

spread-append :
    (count : ℕ) (rounds : List ℤ) (q : ℤ)
    → spread count (rounds ++ q ∷ []) ≡ spread count rounds ++ repeat count q
spread-append count [] q = append-nil _
spread-append count (r ∷ rounds) q =
    rw (spread-append count rounds q) (sym (append_assoc (repeat count r) _ _))

Step-IsFed : (count : ℕ) {s t : State} → Step count s t → IsFed count s → IsFed count t
Step-IsFed count (measures s q all_sent) (room, fed) =
    let held = s.received ++ s.channel in
    let so_far : spread count s.rounds ≡ held =
      fed ∙ ap (λ n. held ++ repeat n s.quota) all_sent ∙ append-nil held in
    (room, spread-append count s.rounds q ∙ ap (λ l. l ++ repeat count q) so_far)
Step-IsFed count (sends s n to_send free) (room, fed) =
    let held = s.received ++ s.channel in
    let rest = repeat n s.quota in
    let sent : s.received ++ (s.channel ++ s.quota ∷ []) ++ rest ≡ held ++ s.quota ∷ rest =
      ap (λ l. l ++ rest) (sym (append_assoc s.received s.channel (s.quota ∷ [])))
      ∙ append_assoc held (s.quota ∷ []) rest in
    (
      omega (arith, length-append s.channel (s.quota ∷ []), free),
      fed ∙ ap (λ n. held ++ repeat n s.quota) to_send ∙ sym sent,
    )
Step-IsFed count (receives s q rest holds) (room, fed) =
    let left = repeat s.pending s.quota in
    (
      omega (arith, room, ap length holds),
      fed
          ∙ ap (λ l. s.received ++ l ++ left) holds
          ∙ ap (λ l. l ++ left) (sym (append_assoc s.received (q ∷ []) rest)),
    )

-- However the loop and the goroutines take turns: each quota that was measured is sent as often as
-- there are goroutines, before the next one, and the goroutines receive what was sent in its order;
-- what they have not received yet is in the channel, which has at most one quota for each of them,
-- or is still to be sent.
pub feed_delivers : (count : ℕ) {s : State} → Reaches count s → IsFed count s
unfolding begin
feed_delivers count start = (omega arith, refl)
feed_delivers count (next r step) = Step-IsFed count step (feed_delivers count r)
