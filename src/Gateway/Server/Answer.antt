-- ===== src/Gateway/Server/Answer.antt =====
-- internal/gateway/server.go: what upstream answered, the class of a failure, and the tests on a request.
use gateway_platform.Base.{
  ℕ, Bool, true, false, not, ◌&&◌, ◌||◌, Option, List, ◌+◌, ◌-◌, ◌*◌, leb, any, map, if◌then◌else◌,
  ◌==◌, nat_eq, list_eq,
}
use gateway_platform.Base.Int.{ℤ, pos, negsuc, ltb_ℤ, leb_ℤ, int_eq, wrap64}
use gateway_platform.Base.Text.{Text, codes, contains_text}
use gateway_platform.Contracts.Types.{
  ErrorClass, auth_expired, forbidden_transport, forbidden_capability, rate_limited_known,
  rate_limited_unknown, upstream_5xx, blocked,
}

-- strings.ToLower, of the letters that the needles below are made of.
unfoldable pub to_lower : ℕ → ℕ
to_lower c = if leb 65 c && leb c 90 then c + 32 else c

-- A page of HTML in place of an API's answer.
unfoldable pub is_page : Text → Bool
unfolding to_lower contains_text
is_page body =
    let low = map to_lower body in
    contains_text (codes "<html") low || contains_text (codes "<!doctype") low

unfoldable pub classify_http_with_reset : ℤ → Text → ℤ → ErrorClass
unfolding is_page
classify_http_with_reset status body reset =
    if status == pos 401
    then auth_expired
    else if status == pos 403
    then (if is_page body then forbidden_transport else forbidden_capability)
    else if status == pos 429
    then (if ltb_ℤ (pos 0) reset then rate_limited_known else rate_limited_unknown)
    else if leb_ℤ (pos 500) status
    then upstream_5xx
    else blocked

unfoldable pub should_failover_status : ℤ → Bool
should_failover_status status =
    status == pos 401 || status == pos 403 || status == pos 429 || leb_ℤ (pos 500) status

pub record Usage : Type 0 where
  pub input : ℤ
  pub output : ℤ
  pub cache_read : ℤ
  pub cache_write : ℤ

-- The results of callUpstream; `call_failed` is whether its error is not nil.
pub record Answer : Type 0 where
  pub body : Text
  pub status : ℤ
  pub usage : Option Usage
  pub network_failed : Bool
  pub reset : ℤ
  pub call_failed : Bool

-- A member of a content array: an object with its type, which is "" where it is not a string.
pub data Part : Type 0 where
  object : Text → Part
  not_object : Part

pub data Content : Type 0 where
  absent other_content : Content
  parts : List Part → Content

pub record Message : Type 0 where
  pub has_thinking : Bool
  pub has_images : Bool
  pub content : Content

unfoldable pub unsupported_part : Part → Bool
unsupported_part not_object = true
unsupported_part (object kind) = not (kind == codes "text") && not (kind == codes "image_url")

unfoldable pub unsupported_content : Content → Bool
unfolding unsupported_part
unsupported_content (parts ps) = any unsupported_part ps
unsupported_content _ = false

unfoldable pub contains_unsupported_message_fields : List Message → Bool
unfolding unsupported_content
contains_unsupported_message_fields messages =
    any (λ m. m.has_thinking || m.has_images || unsupported_content m.content) messages

pub record Request : Type 0 where
  pub model : Text
  pub messages : List Message
  pub stream : Bool

-- time.Duration(n) * time.Second, which wraps.
unfoldable pub seconds_duration : ℤ → ℤ
unfolding wrap64
seconds_duration (pos n) = wrap64 (pos (n * 1000000000))
seconds_duration (negsuc n) = wrap64 (negsuc ((n + 1) * 1000000000 - 1))
