-- ===== src/Conn/Heartbeat/History.antt =====
-- The record of the heartbeats is that of the last ones.
use winchaos.Base.{
  ℕ, zero, suc, ◌-◌, String, Bool, true, false, List, [], ◌∷◌, ◌≡◌, refl, ap, ◌∙◌, length, drop,
  pos, arith,
}
use winchaos.Base.Exec.{Flow, ok, err, panic, no_fuel, value, continue}
use winchaos.Tools.LimitedList.{LimitedList, new_limited_sort_list, put}
use winchaos.Tools.LimitedList.History.{put_all, put_all-history}
use winchaos.Transport.Response.{Response}
use winchaos.Transport.Client.{Agent, Network, invoke_uri}
use winchaos.Transport.Client.Returns.{Returns, invoke_uri-Returns}
use winchaos.Conn.Connect.{uri_of}
use winchaos.Conn.Heartbeat.{heartbeat_request, record_answer, send_heartbeat, beat, beats}

module _ {X : Type 0} where
  abbrev pub delivered : Flow String Response × Agent X → Bool
  delivered (ok response, s) = response.success
  delivered _ = false

  record_answer-put :
      (net : Network X) (l : LimitedList Bool) (r : Flow String Response × Agent X)
      → Returns r
      → record_answer net l r ≡ (ok tt, (put (delivered r) l, r.1))
  unfolding record_answer
  record_answer-put net l (ok response, s) h = refl
  record_answer-put net l (err x, s) h = refl
  record_answer-put net l (panic, s) h = absurd h
  record_answer-put net l (no_fuel, s) h = absurd h

module _ {X : Type 0} (net : Network X) where
  -- The answer to the heartbeat that the agent sends next.
  abbrev pub answer : Agent X → Flow String Response × Agent X
  answer s = invoke_uri net (uri_of "heartbeat" s.opts) (heartbeat_request s.opts) true s

  -- Whether each of the next heartbeats is answered with success.
  unfoldable pub answers : ℕ → Agent X → List Bool
  answers zero s = []
  answers (suc n) s = delivered (answer s) ∷ answers n (answer s).1

  beat-put :
      (l : LimitedList Bool) (s : Agent X)
      → beat net (l, s) ≡ (ok tt, (put (delivered (answer s)) l, (answer s).1))
  unfolding beat send_heartbeat
  beat-put l s =
      record_answer-put net l (answer s)
        (invoke_uri-Returns net (uri_of "heartbeat" s.opts) (heartbeat_request s.opts) true s)

  beats-put_all :
      (n : ℕ) (l : LimitedList Bool) (s : Agent X)
      → (s' : Agent X) × (beats net n (l, s) ≡ (ok tt, (put_all (answers n s) l, s')))
  unfolding beats put_all answers
  beats-put_all zero l s = (s, refl)
  beats-put_all (suc n) l s =
      let (s', rest) = beats-put_all n (put (delivered (answer s)) l) (answer s).1 in
      (s', ap (λ r. continue r (λ u. beats net n)) (beat-put l s) ∙ rest)

  length-answers : (n : ℕ) (s : Agent X) → length (answers n s) ≡ n
  unfolding answers
  length-answers zero s = refl
  length-answers (suc n) s = ap suc (length-answers n (answer s).1)

-- After any number of ticks, whatever the network does, the loop is still running, and the list of
-- 26 that it began with empty holds, for the last 26 heartbeats in their order, whether each was
-- answered with success.
pub beats-history :
    {X : Type 0} (net : Network X) (n : ℕ) (s : Agent X)
    → (l l' : LimitedList Bool) × (s' : Agent X) × (new_limited_sort_list (pos 26) ≡ value l)
      × (beats net n (l, s) ≡ (ok tt, (l', s')))
      × (l'.items ≡ drop (n - 26) (answers net n s))
beats-history net n s =
    let (l, made, held) = put_all-history 26 (answers net n s) (omega arith) in
    let (s', ran) = beats-put_all net n l s in
    (l, put_all (answers net n s) l, s', made, ran, rw (length-answers) at held)
