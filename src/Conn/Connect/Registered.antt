-- ===== src/Conn/Connect/Registered.antt =====
-- What an agent holds once the server has accepted it.
use winchaos.Base.{String, Bool, true, false, not, ◌≡◌, ◌≢◌, refl, sym, ap, ◌∙◌, if◌then◌else◌}
use winchaos.Base.Exec.{ok}
use winchaos.Options.{set_cid, set_uid}
use winchaos.Tools.Sign.{Keys}
use winchaos.Tools.KeyFile.{Files}
use winchaos.Tools.KeyFile.Kept.{record_secret_key-eq-ok}
use winchaos.Transport.Value.{Value, null, str, num, bool, arr, obj, model, models, Fields, field?}
use winchaos.Transport.Response.{Response}
use winchaos.Transport.Client.{Agent}
use winchaos.Conn.Connect.{
  refused, Given, absent, text, other, given, record_keys, record_rest, record_fields,
  handle_result, handle_direct_http_connect_response,
}

-- The agent has the keys of the answer and its `cid`.
pub record IsRegistered {X : Type 0} (response : Response) (s : Agent X) : Type 0 where
  pub accepted : response.success ≡ true
  pub fields : Fields
  pub answered : response.result ≡ obj fields
  pub known_as : given (field? "cid" fields) ≡ text s.opts.cid
  pub access : given (field? "ak" fields) ≡ text s.keys.access_key
  pub secret : given (field? "sk" fields) ≡ text s.keys.secure_key
  pub some_access : s.keys.access_key ≢ ""
  pub some_secret : s.keys.secure_key ≢ ""

module _ {X : Type 0} (files : Files X) where
  -- What is held once the keys of an answer are recorded.
  abbrev Holds : Given → Given → String → Agent X → Type 0
  Holds ak sk cid s =
      (ak ≡ text s.keys.access_key)
      × (sk ≡ text s.keys.secure_key)
      × (s.keys.access_key ≢ "")
      × (s.keys.secure_key ≢ "")
      × (s.opts.cid ≡ cid)

  holds_keys :
      (a b : String) (keys : Keys)
      → keys ≡ record { access_key = a; secure_key = b }
      → a ≢ ""
      → b ≢ ""
      → (text a ≡ text keys.access_key)
        × (text b ≡ text keys.secure_key)
        × (keys.access_key ≢ "")
        × (keys.secure_key ≢ "")
  holds_keys a b keys e some_a some_b = rw e (refl, refl, some_a, some_b)

  record_keys-Holds :
      (ak sk : Given) (s : Agent X)
      → (record_keys files ak sk s).0 ≡ ok tt
      → Holds ak sk s.opts.cid (record_keys files ak sk s).1
  unfolding record_keys
  record_keys-Holds absent sk s h = cc
  record_keys-Holds (text ak) absent s h = cc
  record_keys-Holds (text ak) (text sk) s h =
      let (some_ak, some_sk, held) = record_secret_key-eq-ok files ak sk s.keys s.outside h in
      let (a, b, c, d) = holds_keys ak sk _ held some_ak some_sk in (a, b, c, d, refl)
  record_keys-Holds (text ak) other s h = cc
  record_keys-Holds other absent s h = cc
  record_keys-Holds other (text sk) s h = cc
  record_keys-Holds other other s h = cc

  record_rest-Holds :
      (uid : Given) (fs : Fields) (s : Agent X)
      → (record_rest files uid fs s).0 ≡ ok tt
      → Holds
          (given (field? "ak" fs))
          (given (field? "sk" fs))
          s.opts.cid
          (record_rest files uid fs s).1
  unfolding record_rest set_uid
  record_rest-Holds absent fs s h = record_keys-Holds _ _ s h
  record_rest-Holds (text uid) fs s h =
      record_keys-Holds _ _ (record s { opts = set_uid uid s.opts }) h
  record_rest-Holds other fs s h = cc

  record_fields-Holds :
      (cid : Given) (fs : Fields) (s : Agent X)
      → (record_fields files cid fs s).0 ≡ ok tt
      → (c : String) × (cid ≡ text c)
        × Holds (given (field? "ak" fs)) (given (field? "sk" fs)) c (record_fields files cid fs s).1
  unfolding record_fields set_cid
  record_fields-Holds absent fs s h = cc
  record_fields-Holds (text cid) fs s h =
      (cid, refl, record_rest-Holds _ fs (record s { opts = set_cid cid s.opts }) h)
  record_fields-Holds other fs s h = cc

  handle_result-IsRegistered :
      (response : Response) (v : Value) (s : Agent X)
      → response.success ≡ true
      → response.result ≡ v
      → (handle_result files v s).0 ≡ ok tt
      → IsRegistered response (handle_result files v s).1
  unfolding handle_result
  handle_result-IsRegistered response (obj fs) s accepted e h =
      let (c, named, held) = record_fields-Holds (given (field? "cid" fs)) fs s h in
      let (a, b, some_a, some_b, same) = held in
      record {
        accepted = accepted;
        fields = fs;
        answered = e;
        known_as = named ∙ ap text (sym same);
        access = a;
        secret = b;
        some_access = some_a;
        some_secret = some_b;
      }
  handle_result-IsRegistered response null s accepted e h = cc
  handle_result-IsRegistered response (str x) s accepted e h = cc
  handle_result-IsRegistered response (num x) s accepted e h = cc
  handle_result-IsRegistered response (bool x) s accepted e h = cc
  handle_result-IsRegistered response (arr x) s accepted e h = cc
  handle_result-IsRegistered response (model x) s accepted e h = cc
  handle_result-IsRegistered response (models x) s accepted e h = cc

  accepted_or_not :
      (b : Bool) (response : Response) (s : Agent X)
      → response.success ≡ b
      → ((if not b then refused files response else handle_result files response.result) s).0
        ≡ ok tt
      → IsRegistered response
          ((if not b then refused files response else handle_result files response.result) s).1
  accepted_or_not true response s accepted h =
      handle_result-IsRegistered response response.result s accepted refl h
  accepted_or_not false response s not_accepted h = cc

-- If the answer to a registration is handled without an error, the server accepted the agent and
-- its answer had an id and two keys, all texts and the keys not empty; the agent then goes by that
-- id and has those keys.
pub handle_response-IsRegistered :
    {X : Type 0} (files : Files X) (response : Response) (s : Agent X)
    → (handle_direct_http_connect_response files response s).0 ≡ ok tt
    → IsRegistered response (handle_direct_http_connect_response files response s).1
unfolding handle_direct_http_connect_response
handle_response-IsRegistered files response s h =
    accepted_or_not files response.success response s refl h
