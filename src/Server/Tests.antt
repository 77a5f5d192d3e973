-- ===== src/Server/Tests.antt =====
-- A whole request in one segment.
use cllm.Common.{
  ℕ, ◌≡◌, ◌≢◌, refl, arith, some, none, false, List, [], ◌∷◌, ◌++◌, codes, take, All, true,
}
use cllm.Common.Int.{◌-ℤ◌}
use cllm.CString.{strncmp}
use cllm.Http.Parse.Line.{IsWord, IsLast, line_text}
use cllm.Api.Answer.{agrees, api_v1_init}
use cllm.Api.Routes.{metadata, route_of, not_found}
use cllm.Api.Routes.Tests.{char_model, char_model-IsLlm, no_number, one_float, one_float-IsFloat}
use cllm.Net.Tcp.{Packet, Socket, established, zeroed, headers_end, on_open}
use cllm.Api.Answer.Kept.{IfAny}
use cllm.Api.Handlers.{Llm}
use cllm.Server.{answer, respond}
use cllm.Server.Answers.{Routed}
use cllm.Server.Live.{stored, Served, on_open-Served}
use cllm.Server.Routed.{line-Routed}
use cllm.Server.Unloaded.{answer_without_model}

abbrev get_text : List ℕ
get_text = codes "GET"

abbrev path_text : List ℕ
path_text = codes "/x"

abbrev version_text : List ℕ
version_text = codes "H"

get-IsWord : All IsWord get_text
get-IsWord = (
  (omega arith, omega arith, omega arith),
  ((omega arith, omega arith, omega arith), ((omega arith, omega arith, omega arith), tt)),
)

path-IsWord : All IsWord path_text
path-IsWord =
    ((omega arith, omega arith, omega arith), ((omega arith, omega arith, omega arith), tt))

version-IsLast : All IsLast version_text
version-IsLast = ((omega arith, omega arith), tt)

abbrev whole_request : List ℕ
whole_request = line_text get_text path_text version_text ++ (13 ∷ 10 ∷ 13 ∷ 10 ∷ [])

abbrev packet : Packet
packet = record {
  remote_ip = 5;
  src_port = 4000;
  dst_port = 8080;
  seq = 100;
  ack = 200;
  flags = 24;
  payload = whole_request;
}

abbrev socket : Socket
socket = record zeroed { state = established; local_port = 8080; remote_port = 4000; remote_ip = 5 }

path-route : route_of path_text ≡ not_found
unfolding route_of agrees strncmp ◌-ℤ◌
path-route = refl

not_metadata : not_found ≢ metadata
not_metadata e = cc

request-ends : headers_end (stored packet socket).rx ≡ some 12
unfolding headers_end
request-ends = refl

request-Routed :
    Routed no_number one_float char_model char_model-IsLlm one_float-IsFloat
      (take 12 (stored packet socket).rx)
request-Routed =
    line-Routed no_number one_float char_model char_model-IsLlm one_float-IsFloat get_text path_text
      version_text (13 ∷ 10 ∷ []) get-IsWord path-IsWord version-IsLast (omega arith) (omega arith)
      (omega arith) (omega arith) (omega arith) (rw path-route not_metadata)

on_open-Served_example :
    Served no_number one_float char_model char_model-IsLlm one_float-IsFloat
      (api_v1_init true)
      12
      packet
      socket
      (on_open (respond no_number one_float char_model (api_v1_init true)) packet socket)
on_open-Served_example =
    on_open-Served no_number one_float char_model char_model-IsLlm one_float-IsFloat
      (api_v1_init true) packet socket 12 refl refl refl (omega arith) request-ends request-Routed

-- The same answer as from a model that says nothing.
abbrev mute_model : Llm
mute_model = record {
  tokenize = λ text n. none;
  generate = λ prompt n out. none;
  detokenize = λ tokens text. text;
}

answer_without_model_example :
    (answer no_number one_float char_model (api_v1_init false) whole_request
      ≡ answer no_number one_float mute_model (api_v1_init false) whole_request)
    × IfAny false (answer no_number one_float char_model (api_v1_init false) whole_request)
answer_without_model_example =
    answer_without_model no_number one_float char_model mute_model (api_v1_init false) whole_request
      refl
