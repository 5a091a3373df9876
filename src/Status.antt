-- ===== src/Status.antt =====
-- The status values of go/gosdk/gosdk.go, as the hooks hand them to Envoy.
use dynamic_modules_examples.Base.{ℕ}

pub data RequestHeadersStatus : Type 0 where
  continue stop_iteration stop_all_iteration_and_buffer : RequestHeadersStatus

pub data RequestBodyStatus : Type 0 where
  continue stop_iteration_and_buffer : RequestBodyStatus

pub data ResponseHeadersStatus : Type 0 where
  continue stop_iteration stop_all_iteration_and_buffer : ResponseHeadersStatus

pub data ResponseBodyStatus : Type 0 where
  continue stop_iteration_and_buffer : ResponseBodyStatus

-- `uintptr(status)`
abbrev pub request_headers_code : RequestHeadersStatus → ℕ
request_headers_code RequestHeadersStatus.continue = 0
request_headers_code RequestHeadersStatus.stop_iteration = 1
request_headers_code RequestHeadersStatus.stop_all_iteration_and_buffer = 3

abbrev pub request_body_code : RequestBodyStatus → ℕ
request_body_code RequestBodyStatus.continue = 0
request_body_code RequestBodyStatus.stop_iteration_and_buffer = 1

abbrev pub response_headers_code : ResponseHeadersStatus → ℕ
response_headers_code ResponseHeadersStatus.continue = 0
response_headers_code ResponseHeadersStatus.stop_iteration = 1
response_headers_code ResponseHeadersStatus.stop_all_iteration_and_buffer = 3

abbrev pub response_body_code : ResponseBodyStatus → ℕ
response_body_code ResponseBodyStatus.continue = 0
response_body_code ResponseBodyStatus.stop_iteration_and_buffer = 1
