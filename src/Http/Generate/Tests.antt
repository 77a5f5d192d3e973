-- ===== src/Http/Generate/Tests.antt =====
-- A small response, whole and refused.
use cllm.Common.{refl, [], ◌∷◌, ◌++◌, arith, codes, replicate, ◌<◌, ◌^◌}
use cllm.Common.Maybe.{Ensures}
use cllm.CString.{strlen}
use cllm.CString.Compare.{strlen_before}
use cllm.Format.Plain.{is_plain-NonNul}
use cllm.Http.{Response}
use cllm.Http.Generate.{http_generate_response}
use cllm.Http.Generate.Outcome.{Sends, response_text, http_generate_response-Sends}

abbrev ok_response : Response
ok_response = record {
  status_code = 200;
  headers = codes "A: b" ++ (13 ∷ 10 ∷ 0 ∷ []);
  body = codes "{}" ++ (0 ∷ []);
  body_length = 2;
}

ok_response-headers : strlen ok_response.headers < 2 ^ 31
ok_response-headers =
    let line = codes "A: b" ++ (13 ∷ 10 ∷ []) in
    omega (arith, strlen_before line [] (is_plain-NonNul line refl))

http_generate_response-Sends_example :
    Ensures
      (Sends (replicate 80 0) 80 (response_text ok_response))
      (http_generate_response ok_response (replicate 80 0) 80)
http_generate_response-Sends_example =
    http_generate_response-Sends ok_response (replicate 80 0) 80 (omega arith) ok_response-headers
      (omega arith) (omega arith) (omega arith)
