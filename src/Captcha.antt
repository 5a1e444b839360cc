-- ===== src/Captcha.antt =====
-- CaptchaVerifier.hpp: the requests to the captcha service. A callback is a number; `answers` are the
-- calls of the callbacks of requests, `at_once` those that `Verify` makes itself. `operations` are the
-- asynchronous operations that are under way. `none` is a fault: a null pointer to the settings, or no
-- request. Boost's `replace_all` and the JSON parser are arguments: what the parser found is `parsed`.
pub mod Order
pub mod Handlers
pub mod Run
pub mod Failure
mod Examples
use collab_vm_server.Base.{
  ℕ, zero, suc, ◌+◌, Bool, true, false, not, ◌&&◌, Option, none, some, List, [], ◌∷◌, ◌++◌, leb,
  length, if◌then◌else◌, ◌>>=◌, is_empty,
}
use collab_vm_server.Message.{Text}

pub record VerifyRequest : Type 0 where
  pub callback : ℕ
  pub response_token : Text
  pub remote_ip : Text

-- `ServerSetting::Captcha`, as far as the verifier acts on it.
pub record CaptchaSettings : Type 0 where
  pub enabled : Bool
  pub https : Bool
  pub url_host : Text
  pub url_path : Text
  pub post_params : Text

-- The fields of `req_`.
pub record HttpRequest : Type 0 where
  pub host : Text
  pub is_post : Bool
  pub has_content_type : Bool
  pub target : Text
  pub body : Text
  pub content_length : Option ℕ

pub data Operation : Type 0 where
  resolve connect_stream : Bool → Operation
  handshake write read retry_wait : Operation

pub record CaptchaVerifier : Type 0 where
  pub request : Option VerifyRequest
  pub queue : List VerifyRequest
  pub req : HttpRequest
  pub settings : Option CaptchaSettings
  pub pending_settings : Option CaptchaSettings
  pub failed_count : ℕ
  pub operations : List Operation
  pub answers : List (ℕ × Bool)
  pub at_once : List (ℕ × Bool)

abbrev pub max_fail_count : ℕ
max_fail_count = 3

abbrev pub new_verifier : CaptchaVerifier
new_verifier = record {
  request = none;
  queue = [];
  req = record {
    host = [];
    is_post = false;
    has_content_type = false;
    target = [];
    body = [];
    content_length = none;
  };
  settings = none;
  pending_settings = none;
  failed_count = 0;
  operations = [];
  answers = [];
  at_once = [];
}

abbrev pub begin : Operation → CaptchaVerifier → CaptchaVerifier
begin o v = record v { operations = v.operations ++ o ∷ [] }

-- A call of the callback of a request.
abbrev pub answer : Bool → VerifyRequest → ℕ × Bool
answer success r = (r.callback, success)

-- The calls of the callbacks in the queue.
abbrev pub answer_all : Bool → List VerifyRequest → List (ℕ × Bool)
answer_all success [] = []
answer_all success (r ∷ rs) = answer success r ∷ answer_all success rs

unfoldable pub set_settings : CaptchaSettings → CaptchaVerifier → CaptchaVerifier
set_settings new_settings v = record v {
  pending_settings = some new_settings;
  req = record v.req {
    host = new_settings.url_host;
    is_post = not (is_empty new_settings.post_params);
    has_content_type = not (is_empty new_settings.post_params);
  };
}

-- The settings that `Verify` looks at.
abbrev pub current_settings : CaptchaVerifier → Option CaptchaSettings
current_settings v = elim v.pending_settings [ none ↦ v.settings | some c ↦ some c ]

abbrev pub is_enabled : CaptchaVerifier → Bool
is_enabled v = elim (current_settings v) [ none ↦ false | some c ↦ c.enabled ]

-- `Connect` takes the pending settings, if there are any.
abbrev pub take_settings : CaptchaVerifier → CaptchaVerifier
take_settings v = record v {
  settings = current_settings v;
  pending_settings = none;
  failed_count = elim v.pending_settings [ none ↦ v.failed_count | some c ↦ 0 ];
}

unfoldable pub connect : CaptchaVerifier → Option CaptchaVerifier
connect v = let v' = take_settings v in v'.settings >>= λ c. some (begin (resolve c.https) v')

module _ (replace_all : Text → Text → Text → Text) where
  -- "$TOKEN" and "$IP".
  abbrev pub replace_variables : Text → VerifyRequest → Text
  replace_variables body r =
      replace_all (replace_all body (36 ∷ 84 ∷ 79 ∷ 75 ∷ 69 ∷ 78 ∷ []) r.response_token)
        (36 ∷ 73 ∷ 80 ∷ []) r.remote_ip

  -- The request with the variables of the settings replaced.
  abbrev pub fill_request : CaptchaSettings → VerifyRequest → HttpRequest → HttpRequest
  fill_request c r req =
      let req' = record req { target = replace_variables c.url_path r } in
      if is_empty c.post_params
      then req'
      else (let body = replace_variables c.post_params r in
          record req' { body = body; content_length = some (length body) })

  unfoldable pub send_request : CaptchaVerifier → Option CaptchaVerifier
  send_request v = v.settings >>= λ c. v.request >>= λ r.
      some (begin write (record v { failed_count = 0; req = fill_request c r v.req }))

  unfoldable pub verify : ℕ → Text → Text → Bool → CaptchaVerifier → Option CaptchaVerifier
  unfolding send_request connect
  -- `is_open` is what the stream says.
  verify callback token remote_ip is_open v =
      if not (is_enabled v)
      then some (record v { at_once = v.at_once ++ (callback, true) ∷ [] })
      else (if is_empty token
          then some (record v { at_once = v.at_once ++ (callback, false) ∷ [] })
          else (let r : VerifyRequest = record {
            callback = callback;
            response_token = token;
            remote_ip = remote_ip;
          } in
              elim v.request [
                | some current ↦ some (record v { queue = v.queue ++ r ∷ [] })
                | none ↦
                    let v' = record v { request = some r } in
                    if is_open then send_request v' else connect v'
              ]))

  unfoldable pub retry : CaptchaVerifier → Option CaptchaVerifier
  retry v =
      let v' = record v { failed_count = v.failed_count + 1 } in
      if leb max_fail_count v'.failed_count
      then (v'.request >>= λ r. some (record v' {
        answers = v'.answers ++ answer false r ∷ answer_all false v'.queue;
        request = none;
        queue = [];
      }))
      else some (begin retry_wait v')

  -- The handler of `async_read`.
  unfoldable pub on_read : Bool → Option Bool → CaptchaVerifier → Option CaptchaVerifier
  unfolding retry send_request
  on_read error parsed v =
      if error
      then retry v
      else (v.settings >>= λ c. v.request >>= λ r.
          let success : Bool = elim parsed [ none ↦ false | some b ↦ b ] in
          let v' = record v { answers = v.answers ++ answer success r ∷ [] } in
          elim v'.queue [
            | [] ↦ some (record v' { request = none })
            | next ∷ rest ↦ send_request (record v' { request = some next; queue = rest })
          ])

  -- The handlers of the operations.
  unfoldable pub complete :
      Operation → Bool → Option Bool → CaptchaVerifier → Option CaptchaVerifier
  unfolding retry send_request on_read connect
  complete (resolve use_ssl) error parsed v = some (begin (connect_stream use_ssl) v)
  complete (connect_stream use_ssl) error parsed v =
      if error then retry v else if not use_ssl then send_request v else some (begin handshake v)
  complete handshake error parsed v = if error then retry v else send_request v
  complete write error parsed v = if error then retry v else some (begin read v)
  complete read error parsed v = on_read error parsed v
  complete retry_wait error parsed v = connect v
