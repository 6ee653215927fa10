-- ===== src/Conn/Start.antt =====
-- conn/conn.go: the handlers of the connection, started as goroutines. Register and Start are steps
-- of a machine whose goroutines run in any order.
pub mod Silent
use winchaos.Base.{String, Bool, true, false, List, [], ◌∷◌, ◌++◌, ◌≡◌}
use winchaos.Base.Dict.{Dict, insert}

-- A goroutine runs its handler, or the handler has returned without an error, or it waits to send
-- the error of its handler.
pub data Phase : Type 0 where
  running ended : Phase
  sending : String → Phase

-- The channel is made or nil; a send and a receive on a nil channel wait for ever.
pub data Channel : Type 0 where
  made nil : Channel

pub record State (H : Type 0) : Type 0 where
  pub channel : Channel
  -- each with its name and its handler; the order of the list means nothing, as they run in any
  -- order
  pub goroutines : List (String × H × Phase)
  pub exited : Bool

-- `Register`, on the map of handlers.
unfoldable pub register : {H : Type 0} → String → H → Dict H → Dict H
register name handler handlers = insert name handler handlers

abbrev launched : {H : Type 0} → Dict H → List (String × H × Phase)
launched [] = []
launched ((name, handler) ∷ handlers) = (name, handler, running) ∷ launched handlers

-- `Start`: `var errCh chan error` declares a channel that is nil.
unfoldable pub start : {H : Type 0} → Dict H → State H
start handlers = record { channel = nil; goroutines = launched handlers; exited = false }

-- The goroutine of a name goes from one phase to another, wherever it stands.
abbrev pub Becomes :
    {H : Type 0} → String → Phase → Phase → State H → List (String × H × Phase) → Type 0
Becomes {H} name p q s l =
    (handler : H) × (before : List (String × H × Phase)) × (after : List (String × H × Phase))
    × (s.goroutines ≡ before ++ (name, handler, p) ∷ after)
    × (l ≡ before ++ (name, handler, q) ∷ after)

-- One step of a goroutine, or of one of them together with the loop that receives and exits.
pub data Step {H : Type 0} : State H → State H → Type 0 where
  returns :
      (s : State H) (l : List (String × H × Phase)) (name : String)
      → Becomes name running ended s l
      → Step s (record s { goroutines = l })
  fails :
      (s : State H) (l : List (String × H × Phase)) (name error : String)
      → Becomes name running (sending error) s l
      → Step s (record s { goroutines = l })
  receives :
      (s : State H) (l : List (String × H × Phase)) (name error : String)
      → s.channel ≡ made
      → Becomes name (sending error) ended s l
      → Step s (record s { goroutines = l; exited = true })

-- Any number of steps.
pub data Reaches {H : Type 0} (s : State H) : State H → Type 0 where
  here : Reaches s s
  next : {t u : State H} → Reaches s t → Step t u → Reaches s u
