-- ===== src/Tests/Connections.antt =====
-- An agent that registers, and its heartbeats.
use winchaos.Base.{ℕ, suc, Bool, true, ◌≡◌, refl, drop, pos}
use winchaos.Base.Exec.{ok, value}
use winchaos.Options.{default_options}
use winchaos.Tools.KeyFile.{Files}
use winchaos.Tools.LimitedList.{LimitedList, new_limited_sort_list}
use winchaos.Transport.Value.{null, str, obj, end, field}
use winchaos.Transport.Response.{Response}
use winchaos.Transport.Client.{Agent, Network}
use winchaos.Conn.Connect.{handle_direct_http_connect_response}
use winchaos.Conn.Connect.Registered.{IsRegistered, handle_response-IsRegistered}
use winchaos.Conn.Heartbeat.{beats}
use winchaos.Conn.Heartbeat.History.{answers, beats-history}

abbrev files : Files ℕ
files = record {
  open_file = λ path truncate x. (ok tt, x);
  write_string = λ path s x. (ok tt, suc x);
  read_file = λ path x. (ok "", x);
  range_of = λ bindings x. bindings;
  cert_file = "C:/Users/chaos/.chaos.cert";
  app_file = "C:/chaos/.chaos.app";
}

abbrev agent : Agent ℕ
agent = record {
  opts = default_options;
  keys = record { access_key = ""; secure_key = "" };
  outside = 0;
}

abbrev accepted : Response
accepted = record {
  code = 200;
  success = true;
  error = "";
  result = obj (
      field "cid" (str "c1")
        (field "uid" null (field "ak" (str "ak1") (field "sk" (str "sk1") end))));
}

handle_response-IsRegistered_example :
    IsRegistered accepted (handle_direct_http_connect_response files accepted agent).1
unfolding handle_direct_http_connect_response
handle_response-IsRegistered_example = handle_response-IsRegistered files accepted agent refl

-- A server that answers every call with success.
abbrev network : Network ℕ
network = record {
  digest = λ s. s;
  marshal_params = λ params. value "{}";
  marshal_request = λ r. value "request";
  unmarshal_response = λ s. value accepted;
  micros = λ x. x;
  uuid = λ x. ("rid", x);
  do_invoker = λ uri bytes x. (value "{}", suc x);
}

beats-history_example :
    (l l' : LimitedList Bool) × (s' : Agent ℕ) × (new_limited_sort_list (pos 26) ≡ value l)
    × (beats network 30 (l, agent) ≡ (ok tt, (l', s')))
    × (l'.items ≡ drop 4 (answers network 30 agent))
beats-history_example = beats-history network 30 agent
