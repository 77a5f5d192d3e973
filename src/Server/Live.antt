-- ===== src/Server/Live.antt =====
-- What a connection sends when the end of the headers arrives.
use cllm.Common.{
  ℕ, ◌+◌, ◌<◌, ◌≡◌, refl, Bool, true, false, some, List, [], ◌∷◌, length, take, lt→ltb, All,
  if◌then◌else◌,
}
use cllm.Json.Writer.Arrays.{IsFloat}
use cllm.Api.Answer.{Context}
use cllm.Api.Handlers.{Llm}
use cllm.Api.Handlers.Total.{IsLlm}
use cllm.Net.Tcp.{
  Packet, Socket, fin_wait_1, Reply, has_syn, has_fin, has_ack, store_payload, headers_end, add32,
  control, data_segment, ack_flag, fin_flag, on_open, serve,
}
use cllm.Server.{respond}
use cllm.Server.Answers.{IsAnswer, Routed, respond-IsAnswer}

-- The socket with the payload of the packet.
abbrev pub stored : Packet → Socket → Socket
stored p s = store_payload p.payload (record s { ack = add32 p.seq (length p.payload) })

if_true : {A : Type 0} {b : Bool} (x y : A) → b ≡ true → (if b then x else y) ≡ x
if_true x y e = rw e refl

module _ (int_of : List ℕ → ℕ) (embedding : List (ℕ × ℕ)) (llm : Llm) (model : IsLlm llm)
    (floats : All IsFloat embedding) where
  -- An ACK, the whole answer to the first `n` received bytes, and a FIN from the state FIN_WAIT_1.
  pub record Served (c : Context) (n : ℕ) (p : Packet) (s : Socket) (r : Reply) : Type 0 where
    pub text : List ℕ
    pub answer : IsAnswer int_of embedding llm model floats c (take n (stored p s).rx) text
    pub state : r.0.state ≡ fin_wait_1
    pub seq : r.0.seq ≡ add32 (stored p s).seq (length text)
    pub sent :
        r.1
        ≡ control (stored p s) ack_flag
          ∷ data_segment (stored p s) text
          ∷ control r.0 (fin_flag + ack_flag)
          ∷ []

  -- A data segment without SYN and FIN that brings the end of the headers to an open connection is
  -- answered by an ACK, a segment with the whole response to the received bytes, and a FIN, in this
  -- order, and the connection goes to FIN_WAIT_1. The response is what `route_request` returns for the
  -- request that the bytes up to the end of the headers are parsed as, or one of status 400 if they are
  -- not understood. The path is not that of the metadata.
  pub on_open-Served :
      (c : Context) (p : Packet) (s : Socket) (n : ℕ)
      → has_syn p ≡ false
      → has_fin p ≡ false
      → has_ack p ≡ true
      → 0 < length p.payload
      → headers_end (stored p s).rx ≡ some n
      → Routed int_of embedding llm model floats (take n (stored p s).rx)
      → Served c n p s (on_open (respond int_of embedding llm c) p s)
  unfolding on_open serve
  on_open-Served c p s n syn fin ack payload ends routed =
      let k =
        respond-IsAnswer int_of embedding llm model floats c (take n (stored p s).rx) routed in
      let first = if_true _ _ (lt→ltb 0 (length p.payload) payload) in
      rw (syn, fin, ack, ends, k.same)
        (record { text = k.value; answer = k.holds; state = refl; seq = refl; sent = first })
