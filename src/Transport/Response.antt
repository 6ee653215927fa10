-- ===== src/Transport/Response.antt =====
-- transport/response.go: responses, their codes, and the texts of the failures.
use winchaos.Base.{
  ℕ, String, code, Bool, true, false, List, [], ◌∷◌, ◌⧺◌, nat_eq, if◌then◌else◌, ℤ, join, map, ◌≡◌,
  refl,
}
use winchaos.Base.Decimal.{itoa}
use winchaos.Transport.Value.{Value, null, str}

pub record Response : Type 0 where
  pub code : ℕ
  pub success : Bool
  pub error : String
  pub result : Value

abbrev pub ok_code : ℕ
ok_code = 200

abbrev pub invalid_timestamp : ℕ
invalid_timestamp = 401

abbrev pub forbidden : ℕ
forbidden = 403

abbrev pub handler_not_found : ℕ
handler_not_found = 404

abbrev pub token_not_found : ℕ
token_not_found = 405

abbrev pub parameter_empty : ℕ
parameter_empty = 406

abbrev pub parameter_less : ℕ
parameter_less = 407

abbrev pub parameter_type_error : ℕ
parameter_type_error = 408

abbrev pub chaosblade_type_error : ℕ
chaosblade_type_error = 409

abbrev pub server_error : ℕ
server_error = 500

abbrev pub encode_error : ℕ
encode_error = 503

abbrev pub handler_closed : ℕ
handler_closed = 505

abbrev pub ctl_file_not_found : ℕ
ctl_file_not_found = 507

abbrev pub ctl_exec_failed : ℕ
ctl_exec_failed = 508

abbrev pub chaosblade_file_not_found : ℕ
chaosblade_file_not_found = 600

abbrev pub result_unmarshal_failed : ℕ
result_unmarshal_failed = 601

abbrev pub destroyed_experiment_not_found : ℕ
destroyed_experiment_not_found = 605

abbrev pub destroyed_experiment_error : ℕ
destroyed_experiment_error = 606

abbrev pub script_file_execute_wrong : ℕ
script_file_execute_wrong = 607

abbrev pub get_status_execute_wrong : ℕ
get_status_execute_wrong = 630

-- `Errors`. The path of the blade program is the one of a Windows build.
abbrev pub errors : List (ℕ × String)
errors =
    (200, "success")
    ∷ (401, "invalid timestamp")
    ∷ (403, "forbidden, err: %s")
    ∷ (404, "request handler not found")
    ∷ (405, "access token not found")
    ∷ (406, "`%s`: parameter is empty")
    ∷ (407, "`%s`: parameter less")
    ∷ (408, "`%s` parameter data error")
    ∷ (500, "server error, err: %s")
    ∷ (501, "chaos service not opened")
    ∷ (502, "chaos service not authorized")
    ∷ (503, "encode error, err: %s")
    ∷ (504, "service switch error, err: %s")
    ∷ (505, "service handler closed")
    ∷ (506, "service not support: %s")
    ∷ (507, "`%s`: ctl file not found")
    ∷ (508, "exec ctl file failed: %s")
    ∷ (600, "C:\\/chaosblade/blade, chaosblade file not found")
    ∷ (601, "`%s`: exec result unmarshal failed, err: %s")
    ∷ (602, "helm3 exec error, err: %s")
    ∷ (603, "script file format Error %s")
    ∷ (604, "get current path error : %s")
    ∷ (605, " destroy experiment not found %s")
    ∷ (606, " destroy experiment error %s")
    ∷ (607, " script file execute error %s")
    ∷ (630, " get  stauts execute error %s")
    ∷ []

-- `Errors[errCode]`: a code that the map lacks has the empty text.
unfoldable pub template : List (ℕ × String) → ℕ → String
template [] c = ""
template ((n, t) ∷ rest) c = if nat_eq n c then t else template rest c

-- The arguments that the program formats.
pub data Arg : Type 0 where
  text : String → Arg
  int : ℤ → Arg
  texts : List String → Arg
  nil_cpuparam : Arg

-- An argument under the verb `%s`.
abbrev pub as_text : Arg → String
as_text (text s) = s
as_text (int n) = "%!s(int=" ⧺ itoa n ⧺ ")"
as_text (texts l) = "[" ⧺ join " " l ⧺ "]"
as_text nil_cpuparam = "%!s(*cmdexec.Cpuparam=<nil>)"

-- An argument as a superfluous one is shown.
abbrev pub as_value : Arg → String
as_value (text s) = s
as_value (int n) = itoa n
as_value (texts l) = "[" ⧺ join " " l ⧺ "]"
as_value nil_cpuparam = "<nil>"

-- What a character of the template adds, and the flags behind it: whether the argument is used, and
-- whether a `%` is open. The templates have no verb but `%s`.
abbrev emit : String → Bool → Bool → String → ℕ → String × Bool × Bool
emit arg used true c n = elim (nat_eq n b's') [
  | true ↦ (if used then "%!s(MISSING)" else arg, true, false)
  | false ↦ ("%" ⧺ c, used, false)
]
emit arg used false c n = if nat_eq n b'%' then ("", used, true) else (c, used, false)

-- `fmt.Sprintf(template, args)`: the slice of the arguments is passed as one argument, so the first
-- verb shows all of them, and the others have none.
sprintf_from : String → String → Bool → Bool → String → String
sprintf_from arg extra used open_verb String.[] =
    if used then "" else "%!(EXTRA []interface {}=" ⧺ extra ⧺ ")"
sprintf_from arg extra used open_verb (String.◌∷◌ c s) =
    let (out, used', open_verb') = emit arg used open_verb (String.◌∷◌ c "") (code c) in
    out ⧺ sprintf_from arg extra used' open_verb' s

unfoldable pub sprintf : String → List Arg → String
unfolding sprintf_from
sprintf format args =
    sprintf_from ("[" ⧺ join " " (map as_text args) ⧺ "]")
      ("[" ⧺ join " " (map as_value args) ⧺ "]") false false format

unfoldable pub return_fail : ℕ → List Arg → Response
return_fail err_code args = record {
  code = err_code;
  success = false;
  error = sprintf (template errors err_code) args;
  result = null;
}

unfoldable pub return_success : Response
return_success = record { code = ok_code; success = true; error = ""; result = str "success" }

unfoldable pub return_success_with_result : Value → Response
return_success_with_result v = record { code = ok_code; success = true; error = ""; result = v }

-- The texts that a caller reads.
fail_texts :
    (sprintf (template errors 403) (text "missing sign" ∷ []) ≡ "forbidden, err: [missing sign]")
    × (sprintf (template errors 601) (text "{" ∷ text "eof" ∷ [])
        ≡ "`[{ eof]`: exec result unmarshal failed, err: %!s(MISSING)")
    × (sprintf (template errors 401) [] ≡ "invalid timestamp%!(EXTRA []interface {}=[])")
unfolding sprintf template join
fail_texts = (refl, refl, refl)
