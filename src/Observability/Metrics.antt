-- ===== src/Observability/Metrics.antt =====
-- observability/Observability.h and .cc: the counters of class Metrics, as std::uint64_t.
use drogon_api_starter.Prelude.{ℕ, ◌+◌, ◌%◌, ◌^◌, Option, none, some, leb, if◌then◌else◌}

pub record Metrics : Type 0 where
  pub requests : ℕ
  pub responses : ℕ
  pub errors : ℕ
  pub queued : ℕ
  pub dropped : ℕ
  pub batches : ℕ
  pub batch_events : ℕ
  pub retries : ℕ
  pub failures : ℕ
  pub circuit_open : ℕ

abbrev pub zero_metrics : Metrics
zero_metrics = record {
  requests = 0;
  responses = 0;
  errors = 0;
  queued = 0;
  dropped = 0;
  batches = 0;
  batch_events = 0;
  retries = 0;
  failures = 0;
  circuit_open = 0;
}

-- `counter += n` on std::uint64_t.
abbrev pub add_u64 : ℕ → ℕ → ℕ
add_u64 counter n = (counter + n) % 2 ^ 64

-- The calls of `requestId` and `traceparent` in the source's `recordRequest` set attributes of the
-- request, which no counter depends on.
unfoldable pub record_request : Metrics → Metrics
record_request m = record m { requests = add_u64 m.requests 1 }

-- The response is its status code, or `none` for a null pointer.
unfoldable pub record_response : Option ℕ → Metrics → Metrics
record_response none m = record m { responses = add_u64 m.responses 1 }
record_response (some status) m =
    if leb 500 status
    then record m { responses = add_u64 m.responses 1; errors = add_u64 m.errors 1 }
    else record m { responses = add_u64 m.responses 1 }

unfoldable pub record_queued : Metrics → Metrics
record_queued m = record m { queued = add_u64 m.queued 1 }

unfoldable pub record_dropped : Metrics → Metrics
record_dropped m = record m { dropped = add_u64 m.dropped 1 }

unfoldable pub record_batch : ℕ → Metrics → Metrics
record_batch event_count m = record m {
  batches = add_u64 m.batches 1;
  batch_events = add_u64 m.batch_events event_count;
}

unfoldable pub record_retry : Metrics → Metrics
record_retry m = record m { retries = add_u64 m.retries 1 }

unfoldable pub record_failure : Metrics → Metrics
record_failure m = record m { failures = add_u64 m.failures 1 }

unfoldable pub record_circuit_open : Metrics → Metrics
record_circuit_open m = record m { circuit_open = add_u64 m.circuit_open 1 }
