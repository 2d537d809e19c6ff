-- ===== src/Http/Common.antt =====
-- internal/middleware/common.go.
use store_order.Base.{
  String, Option, none, some, [], ◌∷◌, is_empty, if◌then◌else◌, ℤ, pos, is_positive, trim_space,
}
use store_order.Http.{Request, Response, Handler, behind, texts_body}

abbrev request_id_header : String
request_id_header = "X-Request-ID"

abbrev pub default_max_body_bytes : ℤ
default_max_body_bytes = pos 1_048_576

-- `uuid` is what uuid.NewString would return
unfoldable pub request_id : {S : Type 0} → String → Handler S → Handler S
request_id uuid next r s =
    let given = trim_space (r.header request_id_header) in
    let req_id = if is_empty given then uuid else given in
    let (response, s') = next (record r { trace_id = some req_id }) s in
    (behind ((request_id_header, req_id) ∷ []) response, s')

abbrev text_or_empty : Option String → String
text_or_empty none = ""
text_or_empty (some id) = id

unfoldable pub get_request_id : Request → String
get_request_id r = text_or_empty r.trace_id

-- How a handler ends: with a response, or with a panic before it has written anything.
pub data Outcome : Type 0 where
  returned : Response → Outcome
  panicked : Outcome

abbrev internal_error : Response
internal_error = record {
  status = 500;
  headers = ("Content-Type", "application/json") ∷ [];
  body = texts_body (
      ("error", "internal_server_error")
      ∷ ("message", "An unexpected error occurred while processing your request.")
      ∷ []);
}

abbrev recovered : Outcome → Response
recovered (returned response) = response
recovered panicked = internal_error

unfoldable pub recoverer : {S : Type 0} → (Request → S → Outcome × S) → Handler S
recoverer next r s = let (outcome, s') = next r s in (recovered outcome, s')

-- a limit that is not positive stands for the default
unfoldable pub limit_request_body : ℤ → Request → Request
limit_request_body max_bytes r = record r {
  body_limit = some (if is_positive max_bytes then max_bytes else default_max_body_bytes);
}
