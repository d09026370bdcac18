-- ===== src/Telemetry/Langfuse/Ingestion.antt =====
-- internal/telemetry/langfuse.go: the events, and one request that sends a batch of them.
use trimetry.Base.{
  ℕ, String, Bool, true, ◌&&◌, ◌||◌, Option, none, some, List, [], ltb, leb, ◌==◌, if◌then◌else◌,
  str_eq, select, any, is_empty,
}
use trimetry.Base.Clock.{Time}

pub record ScoreCreateBody (F : Type 0) : Type 0 where
  pub id : String
  pub trace_id : String
  pub name : String
  pub value : F
  pub comment : String
  pub data_type : String
  pub config_id : String
  pub observation_id : String

pub record IngestionEvent (F : Type 0) : Type 0 where
  pub id : String
  pub kind : String
  pub timestamp : Time
  pub body : ScoreCreateBody F

pub record IngestionResultItem : Type 0 where
  pub id : String
  pub status : ℕ

pub record IngestionErrorItem : Type 0 where
  pub id : String
  pub status : ℕ
  pub message : String
  pub error : String

pub record IngestionResponse : Type 0 where
  pub successes : List IngestionResultItem
  pub errors : List IngestionErrorItem

abbrev pub empty_response : IngestionResponse
empty_response = record { successes = []; errors = [] }

-- The errors that `sendBatchParsed` returns; `other` is any that is no `*sendError`.
pub data SendError : Type 0 where
  other : SendError
  send_error : (status_code : ℕ) (message : String) → SendError

pub data SendResult : Type 0 where
  ok : IngestionResponse → SendResult
  err : SendError → SendResult

-- What the HTTP client answers: no response, or a status with a body that may not be readable.
pub data HttpReply : Type 0 where
  no_response : HttpReply
  response : (status_code : ℕ) (body : Option String) → HttpReply

-- The code around the adapter: JSON, the URL's parser, and the server, which may answer otherwise
-- at each request.
pub record Http (F : Type 0) : Type 0 where
  pub marshal : List (IngestionEvent F) → Option String
  pub url_valid : Bool
  pub post : ℕ → String → HttpReply
  pub decode : String → Option IngestionResponse

unfoldable pub is_retryable_status : ℕ → Bool
is_retryable_status status_code = leb 500 status_code || status_code == 429

unfoldable pub is_retryable : SendError → Bool
unfolding is_retryable_status
is_retryable other = true
is_retryable (send_error status_code message) = is_retryable_status status_code

abbrev pub has_id : String → IngestionErrorItem → Bool
has_id id e = str_eq e.id id

-- The events whose ID is among those of the retryable errors.
unfoldable pub extract_retryable_failures :
    {F : Type 0} → List (IngestionEvent F) → IngestionResponse → List (IngestionEvent F)
unfolding is_retryable_status
extract_retryable_failures sent result =
    let failed = select (λ e. is_retryable_status e.status) result.errors in
    if is_empty result.errors || is_empty failed
    then []
    else select (λ ev. any (has_id ev.id) failed) sent

-- A body that cannot be read or parsed counts as a success without errors.
abbrev read_success : (String → Option IngestionResponse) → Option String → IngestionResponse
read_success decode none = empty_response
read_success decode (some body) = elim (decode body) [ none ↦ empty_response | some r ↦ r ]

abbrev body_text : Option String → String
body_text none = ""
body_text (some body) = body

unfoldable pub read_reply : (String → Option IngestionResponse) → HttpReply → SendResult
read_reply decode no_response = err other
read_reply decode (response status_code body) =
    if leb 200 status_code && ltb status_code 300
    then ok (read_success decode body)
    else err (send_error status_code (body_text body))

module _ {F : Type 0} where
  unfoldable pub send_batch_parsed : Http F → ℕ → List (IngestionEvent F) → SendResult
  unfolding read_reply
  send_batch_parsed http call events = elim (http.marshal events) [
    | none ↦ err other
    | some payload ↦
        if http.url_valid then read_reply http.decode (http.post call payload) else err other
  ]
