-- ===== src/Server/Answers.antt =====
-- A connection that has received a whole header is answered.
use cllm.Common.{
  ℕ, zero, ◌^◌, ◌<◌, ◌≡◌, ◌≢◌, refl, ap, ◌∙◌, arith, Bool, true, false, some, List, ◌++◌, length,
  length-append, length-replicate, length-drop, take, drop, replicate, All, take-append_length,
}
use cllm.Common.Maybe.{Ensures, ensures, Ensures-bind, Ensures-weaken}
use cllm.CString.{strlen}
use cllm.CString.Compare.{strlen-until_nul}
use cllm.CString.Copy.{padded, strncpy_lem, until_nul, until_nul-padded}
use cllm.Format.Plain.{is_plain-NonNul}
use cllm.Http.{Request, Response, zeroed_request}
use cllm.Http.Text.{length-padded}
use cllm.Http.Parse.{http_parse_request}
use cllm.Http.Parse.Safe.{IsRequest}
use cllm.Http.Parse.Total.{http_parse_request-Parsed}
use cllm.Http.Generate.{Sent, crlf, status_format, http_generate_response}
use cllm.Http.Generate.Text.{status_format-IsLine, length_line, length_line-IsLine}
use cllm.Http.Generate.Outcome.{response_text, http_generate_response-Sends}
use cllm.Json.Writer.Arrays.{IsFloat}
use cllm.Api.Answer.{Context, json_header}
use cllm.Api.Answer.Whole.{IsResponse, Answered}
use cllm.Api.Handlers.{Llm}
use cllm.Api.Handlers.Total.{IsLlm}
use cllm.Api.Routes.{metadata, route_of, route_request}
use cllm.Api.Routes.Total.{route_request-Ok}
use cllm.Server.{zeroed_response, bad_request, bad_text, dispatch, answer, respond}

-- A response that a handler leaves is shorter than the buffer.
length-response_text : (r : Response) → Answered r → length (response_text r) < 16640
length-response_text r h =
    let status = status_format r.status_code in
    let body = padded r.body_length r.body in
    let rest = length_line r.body_length ++ (crlf ++ body) in
    rw h.header (
      omega (
        arith,
        length-append status (json_header ++ rest),
        length-append json_header rest,
        length-append (length_line r.body_length) (crlf ++ body),
        length-append crlf body,
        length-padded r.body_length r.body,
        (status_format-IsLine r.status_code).short,
        (length_line-IsLine r.body_length (omega (arith, h.body_length))).short,
        h.body_length,
      ))

-- The text of a response that can be sent.
abbrev IsText : Response → List ℕ → Type 0
IsText r t = Answered r × (t ≡ response_text r)

generated :
    (r : Response)
    → Answered r
    → Ensures
        (λ s. (s.0 ≡ true) × IsText r (take s.2 s.1))
        (http_generate_response r (replicate 16640 0) 16640)
generated r h =
    let t = response_text r in
    let few = length-response_text r h in
    let headers : strlen r.headers < 2 ^ 31 =
      omega (arith, strlen-until_nul r.headers, ap length h.header) in
    Ensures-weaken
      (λ s k.
        let e = k.whole few in
        (ap (λ (x : Sent). x.0) e, (h, ap (λ (x : Sent). take x.2 x.1) e ∙ take-append_length t _)))
      (http_generate_response-Sends r (replicate 16640 0) 16640 (omega (arith, h.body_length))
        headers (omega (arith, length-replicate 16640 (zero))) (omega arith) (omega arith))

-- The response to what is not understood.
pub record IsRefusal (r : Response) : Type 0 where
  pub status : r.status_code ≡ 400
  pub body : until_nul r.body ≡ bad_text

bad_request-Answered :
    (r : Response) → IsResponse r → Ensures (λ r'. Answered r' × IsRefusal r') (bad_request r)
unfolding bad_request
bad_request-Answered r h =
    let headers = padded 1024 json_header ++ drop 1024 r.headers in
    let body = padded 16384 bad_text ++ drop 16384 r.body in
    let text = is_plain-NonNul bad_text refl in
    let few : length bad_text < 16384 = omega arith in
    rw
      (
        strncpy_lem r.headers json_header 1024 (omega (arith, h.headers)),
        strncpy_lem r.body bad_text 16384 h.body,
      )
      (let body_text = until_nul-padded 16384 bad_text (drop 16384 r.body) text few in
        ensures _ (
          record {
            sizes = record {
              headers = omega (
                arith,
                length-append (padded 1024 json_header) (drop 1024 r.headers),
                length-padded 1024 json_header,
                length-drop 1024 r.headers,
                h.headers,
              );
              body = omega (
                arith,
                length-append (padded 16384 bad_text) (drop 16384 r.body),
                length-padded 16384 bad_text,
              );
            };
            header =
                until_nul-padded 1024 json_header (drop 1024 r.headers)
                  (is_plain-NonNul json_header refl) (omega arith);
            body_length = omega (arith, strlen-until_nul body, ap length body_text);
          },
          record { status = refl; body = body_text },
        ))

pub zeroed-IsRequest : IsRequest zeroed_request
zeroed-IsRequest = record {
  method = refl;
  path = refl;
  version = refl;
  headers = refl;
  body = refl;
  content_type = refl;
}

zeroed-IsResponse : IsResponse zeroed_response
zeroed-IsResponse = record { headers = refl; body = omega arith }

module _ (int_of : List ℕ → ℕ) (embedding : List (ℕ × ℕ)) (llm : Llm) (model : IsLlm llm)
    (floats : All IsFloat embedding) where
  -- What a parsed request is answered with: a request that is understood by its route, any other by
  -- status 400 and the text of `bad_text`.
  pub data Handles (c : Context) : Bool × Request → Response → Type 0 where
    understood :
        (req : Request) (c' : Context) (r : Response)
        → route_request int_of embedding llm c req zeroed_response ≡ some (c', r)
        → Handles c (true, req) r
    refused : (req : Request) (r : Response) → IsRefusal r → Handles c (false, req) r

  dispatch-Handles :
      (c : Context) (q : Bool × Request)
      → route_of q.1.path ≢ metadata
      → Ensures (λ h. Answered h.1 × Handles c q h.1) (dispatch int_of embedding llm c q)
  dispatch-Handles c (true, req) h =
      let routed =
        route_request-Ok int_of embedding llm model floats c req zeroed_response zeroed-IsResponse
          h in
      record {
        value = routed.value;
        same = routed.same;
        holds = (routed.holds, understood req routed.value.0 routed.value.1 routed.same);
      }
  dispatch-Handles c (false, req) h =
      Ensures-bind (bad_request-Answered zeroed_response zeroed-IsResponse)
        (λ r k. ensures (c, r) (k.0, refused req r k.1))

  -- The path of the parsed request is not that of the metadata.
  abbrev pub Routed : List ℕ → Type 0
  Routed raw =
      (q : Bool × Request)
      → http_parse_request raw (length raw) zeroed_request ≡ some q
      → route_of q.1.path ≢ metadata

  -- The text is that of the response to what the bytes are parsed as.
  pub record IsAnswer (c : Context) (raw t : List ℕ) : Type 0 where
    pub request : Bool × Request
    pub parsed : http_parse_request raw (length raw) zeroed_request ≡ some request
    pub response : Response
    pub handled : Handles c request response
    pub answered : Answered response
    pub text : t ≡ response_text response

  answer-IsAnswer :
      (c : Context) (raw : List ℕ)
      → Routed raw
      → Ensures
          (λ p. (t : List ℕ) × (p.1 ≡ some t) × IsAnswer c raw t)
          (answer int_of embedding llm c raw)
  unfolding answer
  answer-IsAnswer c raw h =
      let parsed = http_parse_request-Parsed raw (length raw) zeroed_request zeroed-IsRequest in
      rw parsed.same (
        Ensures-bind (dispatch-Handles c parsed.value (h parsed.value parsed.same)) (λ g k.
          Ensures-bind (generated g.1 k.0) (λ s l. rw l.0 (
            ensures _ (
              _,
              refl,
              record {
                request = parsed.value;
                parsed = parsed.same;
                response = g.1;
                handled = k.1;
                answered = k.0;
                text = l.1.1;
              },
            )))))

  -- Whatever bytes a connection has received, the server has a response for them that fits its
  -- buffer: the text of one with the JSON content type and a body of less than 16384 bytes, which is that
  -- of the request's route, or of status 400 if the bytes are not understood. The path is not that of the
  -- metadata, and the model returns `int` tokens, at most as many as asked for.
  pub respond-IsAnswer :
      (c : Context) (raw : List ℕ)
      → Routed raw
      → Ensures (IsAnswer c raw) (respond int_of embedding llm c raw)
  unfolding respond
  respond-IsAnswer c raw h =
      Ensures-bind (answer-IsAnswer c raw h) (λ p k. rw k.1 (ensures k.0 k.2))
