-- ===== src/Data/Queries.antt =====
-- The statement that `QueryExperimentModels` builds fits its parameters.
use text.Mathlib.TextLemmas.{nil-append, cons-append}
use winchaos.Base.{
  ℕ, suc, ◌+◌, String, Char, code, Bool, true, false, List, [], ◌≡◌, refl, ◌==◌, ◌⧺◌, nat_eq,
  if◌then◌else◌, length, cons-eq-empty, Bool-cases, inl, inr, arith,
}
use winchaos.Base.Exec.{Flow, ok}
use winchaos.Data.Experiment.{upper_first, order_clause, from_paging, models_query}

-- How many parameters a statement asks for.
abbrev pub placeholders : String → ℕ
placeholders String.[] = 0
placeholders (String.◌∷◌ c s) =
    if nat_eq (code c) b'?' then suc (placeholders s) else placeholders s

placeholders-append : (s t : String) → placeholders (s ⧺ t) ≡ placeholders s + placeholders t
placeholders-append String.[] t = rw nil-append (omega arith)
placeholders-append (String.◌∷◌ c s) t = rw cons-append (ground (arith, placeholders-append s t))

order-placeholders :
    (asc : Bool) (tail : String) → placeholders (order_clause asc ⧺ tail) ≡ placeholders tail
order-placeholders true tail = rw placeholders-append (omega arith)
order-placeholders false tail = rw placeholders-append (omega arith)

ok-pair :
    {A B : Type 0} {a c : A} {b d : B}
    → ◌≡◌ {A = Flow String (A × B)} (ok (a, b)) (ok (c, d))
    → (a ≡ c) × (b ≡ d)
ok-pair h = (cc, cc)

from_paging-placeholders :
    (beyond : Char → String) (status tail : String) (asc : Bool) (paging : List String)
    {sql : String} {parameters : List String}
    → placeholders tail ≡ length paging
    → from_paging beyond status asc tail paging ≡ ok (sql, parameters)
    → placeholders sql ≡ length parameters
unfolding from_paging upper_first
from_paging-placeholders beyond String.[] tail asc paging e h =
    let (same_sql, same_parameters) = ok-pair h in
    rw (← same_sql, ← same_parameters, placeholders-append, order-placeholders) (omega arith)
from_paging-placeholders beyond (String.◌∷◌ c s) tail asc paging e h =
    let (same_sql, same_parameters) = ok-pair (rw (cons-eq-empty c s, from_paging) at h) in
    rw
      (
        ← same_sql,
        ← same_parameters,
        placeholders-append,
        placeholders-append " and status = ?",
        order-placeholders,
      )
      (omega arith)

-- A query is asked with as many parameters as its statement has placeholders, whatever the status,
-- the limit and the order.
pub models_query-placeholders :
    (beyond : Char → String) (status limit : String) (asc : Bool) {sql : String}
    {parameters : List String}
    → models_query beyond status limit asc ≡ ok (sql, parameters)
    → placeholders sql ≡ length parameters
unfolding models_query
models_query-placeholders beyond status limit asc h = elim (Bool-cases (limit == "")) [
  | inl whole ↦
      from_paging-placeholders beyond status "" asc [] refl (rw (whole, models_query) at h)
  | inr paged ↦
      from_paging-placeholders beyond status " limit ?,?" asc _ refl (rw (paged, models_query) at h)
]
