-- ===== src/Server/Advices.antt =====
-- main.cc: the advices that runServer registers before the routing and after the handling of a
-- request, and Metrics::recordRequest, over the attributes that are kept in the request and the
-- counters.
use drogon_api_starter.Prelude.{
  ℕ, ◌+◌, ◌%◌, ◌^◌, ◌≡◌, refl, ◌⊎◌, inl, inr, Bool-cases, leb, true, false, String, Option, none,
  some, List, [], ◌∷◌, ◌++◌, if◌then◌else◌, Option,
}
use drogon_api_starter.Text.{is_empty, size}
use drogon_api_starter.Observability.Metrics.{Metrics, record_request, record_response}
use drogon_api_starter.Observability.Tracing.{
  Request, Attributes, no_attributes, Draws, request_id, traceparent, generate_request_id,
  is_context, new_context,
}
use drogon_api_starter.Observability.Tracing.Hex.{IsHex, hex16-IsHex}
use drogon_api_starter.Observability.Tracing.Context.{IsContext, settled-IsContext}
use drogon_api_starter.Controllers.Base.{Response}

pub record Traced : Type 0 where
  pub attributes : Attributes
  pub metrics : Metrics

-- `Metrics::recordRequest`, which counts and settles both attributes
unfoldable pub record_traced_request : Request → Draws → Traced → Traced
unfolding record_request request_id traceparent
record_traced_request request draws t =
    let (id, named) = request_id request draws t.attributes in
    let (context, traced) = traceparent request draws named in
    record { attributes = traced; metrics = record_request t.metrics }

unfoldable pub pre_routing_advice : Request → Draws → Traced → Traced
unfolding record_traced_request
pre_routing_advice request draws t =
    let (id, named) = request_id request draws t.attributes in
    record_traced_request request draws (record t { attributes = named })

-- What a handler does with the attributes: it asks for the id or for the trace context, as
-- captureException does.
pub data Ask : Type 0 where
  asks_id asks_context : Draws → Ask

abbrev ask : Request → Ask → Attributes → Attributes
ask request (asks_id draws) a = (request_id request draws a).1
ask request (asks_context draws) a = (traceparent request draws a).1

unfoldable pub ask_all : Request → List Ask → Attributes → Attributes
ask_all request [] a = a
ask_all request (q ∷ qs) a = ask_all request qs (ask request q a)

module _ {Value : Type 0} where
  abbrev status_of : Option (Response Value) → Option ℕ
  status_of none = none
  status_of (some response) = some response.status

  abbrev with_headers :
      Request
      → Draws
      → String
      → Attributes
      → Option (Response Value)
      → Option (Response Value) × Attributes
  with_headers request draws id a none = (none, a)
  with_headers request draws id a (some response) =
      let (context, traced) = traceparent request draws a in
      (
        some (record response {
          headers = response.headers ++ ("X-Request-ID", id) ∷ ("traceparent", context) ∷ [];
        }),
        traced,
      )

  unfoldable pub post_handling_advice :
      Request → Draws → Option (Response Value) → Traced → Option (Response Value) × Traced
  unfolding record_response request_id traceparent
  post_handling_advice request draws response t =
      let (id, named) = request_id request draws t.attributes in
      let (answer, traced) = with_headers request draws id named response in
      (
        answer,
        record { attributes = traced; metrics = record_response (status_of response) t.metrics },
      )

-- The attributes of a request for which both are settled.
abbrev settled : String → String → Attributes
settled id context = record { request_id = some id; traceparent = some context }

ask_all-settled :
    (request : Request) (id context : String) (qs : List Ask)
    → ask_all request qs (settled id context) ≡ settled id context
unfolding ask_all request_id traceparent
ask_all-settled request id context [] = refl
ask_all-settled request id context (asks_id d ∷ qs) = ask_all-settled request id context qs
ask_all-settled request id context (asks_context d ∷ qs) = ask_all-settled request id context qs

-- An id that a request may have: its own, or sixteen hexadecimal digits where it came with none.
abbrev pub IsIdOf : Request → String → Type 0
IsIdOf request id =
    ((is_empty request.x_request_id ≡ false) × (id ≡ request.x_request_id))
    ⊎ ((is_empty request.x_request_id ≡ true) × (size id ≡ 16) × IsHex id)

-- A trace context that a request may have: its own if that has the form, and one that has it.
abbrev pub IsContextOf : Request → String → Type 0
IsContextOf request context =
    (IsContext request.traceparent_header → context ≡ request.traceparent_header)
    × IsContext context

-- The counters after one request and one response with a status.
abbrev pub counted_once : ℕ → Metrics → Metrics
counted_once status m = record m {
  requests = (m.requests + 1) % 2 ^ 64;
  responses = (m.responses + 1) % 2 ^ 64;
  errors = if leb 500 status then (m.errors + 1) % 2 ^ 64 else m.errors;
}

counted :
    (status : ℕ) (m : Metrics)
    → record_response (some status) (record_request m) ≡ counted_once status m
unfolding record_response record_request
counted status m = elim (Bool-cases (leb 500 status)) [ inl e ↦ rw e refl | inr e ↦ rw e refl ]

-- The id and the context that are settled for a request without attributes.
abbrev id_of : Request → Draws → String
id_of request draws =
    if is_empty request.x_request_id then generate_request_id draws.id else request.x_request_id

abbrev context_of : Request → Draws → String
context_of request draws =
    if is_context request.traceparent_header then request.traceparent_header else new_context draws

id_of-IsIdOf : (request : Request) (draws : Draws) → IsIdOf request (id_of request draws)
id_of-IsIdOf request draws = elim (Bool-cases (is_empty request.x_request_id)) [
  | inl e ↦ let (long, hex) = hex16-IsHex draws.id in inr (e, rw e long, rw e hex)
  | inr e ↦ inl (e, rw e refl)
]

-- A request before its handler.
abbrev pub routed : Request → Draws → Metrics → Traced
routed request draws m =
    pre_routing_advice request draws (record { attributes = no_attributes; metrics = m })

module _ {Value : Type 0} where
  -- The response with the two headers added.
  abbrev pub carrying : Response Value → String → String → Response Value
  carrying response id context = record response {
    headers = response.headers ++ ("X-Request-ID", id) ∷ ("traceparent", context) ∷ [];
  }

  -- The response to a request, whatever its handler asked for and drew in between, carries one id
  -- and one trace context, which stay the request's: the id that it came with, or sixteen
  -- hexadecimal digits where it came with none, and a context of four groups of hexadecimal digits
  -- with dashes, the one it came with if that has the form. The request and the response are
  -- counted once each, and the response as an error from status 500 on.
  pub post_handling_advice-carries :
      (request : Request) (first last : Draws) (qs : List Ask) (m : Metrics)
      (response : Response Value)
      → (id : String) × (context : String) × (post_handling_advice request last
            (some response)
            (record (routed request first m) {
              attributes = ask_all request qs (routed request first m).attributes;
            })
          ≡ (
            some (carrying response id context),
            record { attributes = settled id context; metrics = counted_once response.status m },
          ))
        × IsIdOf request id
        × IsContextOf request context
  unfolding pre_routing_advice post_handling_advice
  post_handling_advice-carries request first last qs m response = (
    id_of request first,
    context_of request first,
    rw
        (
          ask_all-settled request (id_of request first) (context_of request first) qs,
          counted response.status m,
        )
        refl,
    id_of-IsIdOf request first,
    settled-IsContext request.traceparent_header first,
  )
