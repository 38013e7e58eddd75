-- ===== src/Pkerr/Tests.antt =====
-- Sample values for the packages' theorems: a world, a heap, generators and a small status package.
pub mod Making
pub mod SmallStatus
pub mod Serving
use g_rpeakec_go.Prelude.{
  ℕ, suc, zero, ◌+◌, ◌≡◌, ◌≢◌, refl, ap, true, false, Option, none, some, List, [], ◌∷◌, ◌++◌,
}
use g_rpeakec_go.Prelude.Text.{Text, codes}
use g_rpeakec_go.Errors.{Err, no_source, Sentinel, Proto, TraceInfo, Heap}
use g_rpeakec_go.Pkerr.ApiError.{World}
use g_rpeakec_go.Pkerr.Generator.{ErrorGenerator}

abbrev pub sample_world : World
sample_world = record {
  uuid = 7;
  now = 11;
  stack = codes "stack";
  type_of = λ _. codes "T";
  pack = some;
  status_code_text = λ _. codes "NotFound";
}

abbrev pub not_found_sentinel : Sentinel
not_found_sentinel = record {
  issuer = codes "APP";
  code = 1001;
  name = codes "NotFound";
  grpc_code = 5;
  default_message = codes "no such item";
  code_original = 1001;
}

abbrev pub sample_frame : TraceInfo
sample_frame = record {
  app_name = codes "other";
  app_host = codes "host";
  stack_trace = codes "deep";
  additional_context = [];
}

abbrev pub sample_proto : Proto
sample_proto = record {
  id = 1;
  issuer = codes "APP";
  code = 1003;
  grpc_code = 3;
  name = codes "Validation";
  message = codes "bad";
  source_error = codes "src";
  source_type = codes "T";
  time = 5;
  details = [];
  trace = sample_frame ∷ [];
}

-- Every address below 10 holds the same sentinel and the same Error.
abbrev pub sample_heap : Heap
sample_heap = record {
  sentinel_at = λ _. not_found_sentinel;
  proto_at = λ _. sample_proto;
  next = 10;
}

abbrev pub full_generator : ErrorGenerator
full_generator = record {
  app_name = codes "app";
  app_host = codes "box";
  add_stack_trace = true;
  send_context = true;
  send_source = true;
}

abbrev pub quiet_generator : ErrorGenerator
quiet_generator = record {
  app_name = codes "app";
  app_host = [];
  add_stack_trace = false;
  send_context = false;
  send_source = false;
}

-- A wrapped sentinel, a wrapped APIError, and an error of another package.
abbrev pub wrapped_sentinel : Err
wrapped_sentinel = Err.wrapped (codes "get: x") (Err.sentinel 1)

abbrev pub wrapped_api : Err
wrapped_api = Err.wrapped (codes "get: y") (Err.api 3 (some 1) no_source)

abbrev pub foreign_error : Err
foreign_error = Err.foreign 4 (codes "disk full")
