-- ===== src/Conn/Start/Silent.antt =====
-- conn/conn.go: no error of a handler is ever received.
use winchaos.Base.{String, false, List, [], ◌∷◌, ◌++◌, ◌≡◌, refl, ◌⊎◌, inl, inr}
use winchaos.Base.Dict.{Dict}
use winchaos.Conn.Start.{
  Phase, running, ended, sending, nil, State, start, Becomes, Step, returns, fails, receives,
  Reaches, here, next,
}

-- The goroutine of the handler waits to send its error.
abbrev pub Waits : {H : Type 0} → String → String → List (String × H × Phase) → Type 0
Waits name error [] = ⊥
Waits name error ((n, handler, p) ∷ l) = ((n ≡ name) × (p ≡ sending error)) ⊎ Waits name error l

-- What another goroutine does that still ran leaves it waiting.
Waits-Becomes :
    {H : Type 0} (name error n : String) (handler : H) (q : Phase)
    (before after : List (String × H × Phase))
    → Waits name error (before ++ (n, handler, running) ∷ after)
    → Waits name error (before ++ (n, handler, q) ∷ after)
Waits-Becomes name error n handler q [] after (inl (same, e)) = absurd cc
Waits-Becomes name error n handler q [] after (inr h) = inr h
Waits-Becomes name error n handler q ((m, handler', p) ∷ before) after (inl h) = inl h
Waits-Becomes name error n handler q ((m, handler', p) ∷ before) after (inr h) =
    inr (Waits-Becomes name error n handler q before after h)

-- The process runs, its channel is nil, and the handler waits.
abbrev IsStuck : {H : Type 0} → String → String → State H → Type 0
IsStuck name error s = (s.channel ≡ nil) × (s.exited ≡ false) × Waits name error s.goroutines

Becomes-Waits :
    {H : Type 0} (name error n : String) (q : Phase) (s : State H) (l : List (String × H × Phase))
    → Becomes n running q s l
    → Waits name error s.goroutines
    → Waits name error l
Becomes-Waits name error n q s l (handler, before, after, was, is) h =
    rw is (Waits-Becomes name error n handler q before after (rw was at h))

Step-IsStuck :
    {H : Type 0} (name error : String) {s t : State H}
    → Step s t
    → IsStuck name error s
    → IsStuck name error t
Step-IsStuck name error (returns s l n b) (unmade, runs, h) =
    (unmade, runs, Becomes-Waits name error n ended s l b h)
Step-IsStuck name error (fails s l n e b) (unmade, runs, h) =
    (unmade, runs, Becomes-Waits name error n (sending e) s l b h)
Step-IsStuck name error (receives s l n e is_made b) (unmade, runs, h) = absurd cc

Reaches-IsStuck :
    {H : Type 0} (name error : String) {s t : State H}
    → Reaches s t
    → IsStuck name error s
    → IsStuck name error t
Reaches-IsStuck name error here h = h
Reaches-IsStuck name error (next r step) h =
    Step-IsStuck name error step (Reaches-IsStuck name error r h)

-- The channel stays nil, and the process goes on.
abbrev IsUnmade : {H : Type 0} → State H → Type 0
IsUnmade s = (s.channel ≡ nil) × (s.exited ≡ false)

Step-IsUnmade : {H : Type 0} {s t : State H} → Step s t → IsUnmade s → IsUnmade t
Step-IsUnmade (returns s l n b) h = h
Step-IsUnmade (fails s l n e b) h = h
Step-IsUnmade (receives s l n e is_made b) (unmade, runs) = absurd cc

Reaches-IsUnmade : {H : Type 0} {s t : State H} → Reaches s t → IsUnmade s → IsUnmade t
Reaches-IsUnmade here h = h
Reaches-IsUnmade (next r step) h = Step-IsUnmade step (Reaches-IsUnmade r h)

-- In whatever order the goroutines of the handlers run, one whose handler has failed waits for ever
-- to send its error, and the process, which is to exit on the error, never does.
pub start-silent :
    {H : Type 0} (handlers : Dict H) (name error : String) {s t : State H}
    → Reaches (start handlers) s
    → Waits name error s.goroutines
    → Reaches s t
    → Waits name error t.goroutines × (t.exited ≡ false)
unfolding start
start-silent handlers name error begun failed later =
    let (unmade, runs) = Reaches-IsUnmade begun (refl, refl) in
    let (_, runs', waits) = Reaches-IsStuck name error later (unmade, runs, failed) in
    (waits, runs')
