-- ===== src/Http/Generate/Outcome.antt =====
-- What the response generator leaves in the buffer.
use cllm.Common.{
  ℕ, ◌+◌, ◌^◌, ◌≤◌, ◌<◌, ◌≡◌, refl, sym, ap, ◌∙◌, subst, List, [], ◌∷◌, ◌++◌, arith, Option, some,
  true, false, Bool-cases, inl, inr, length, length-append, drop, append_assoc, append-nil, leb,
  leb→le, leb→lt, ◌==◌, ==→eq, length-drop,
}
use cllm.Common.Maybe.{Ensures, ensures}
use cllm.CString.{strlen, store}
use cllm.CString.Copy.{padded, padded-append, until_nul, store-append}
use cllm.CString.Compare.{padded-strlen}
use cllm.Format.{word}
use cllm.Format.Emit.{placed, placed_concat}
use cllm.Http.{Response}
use cllm.Http.Text.{length-padded}
use cllm.Http.Generate.{
  Sent, sum, crlf, status_format, length_format, put_part, finish, put_body, put_blank,
  put_content_length, put_headers, http_generate_response,
}
use cllm.Http.Generate.Text.{
  print_line_lem, cut_off_line, copy_to_lem, status_format-IsLine, length_line, length_line-IsLine,
}

-- The response as one text. A body that ends before `body_length` is filled up with zeros.
abbrev pub response_text : Response → List ℕ
response_text r =
    status_format r.status_code
    ++ (until_nul r.headers ++ (length_line r.body_length ++ (crlf ++ padded r.body_length r.body)))

module _ (buffer : List ℕ) (limit : ℕ) where
  -- The text is in the buffer and its length returned when it is shorter than `limit`; else -1 is
  -- returned, and `*length` left alone.
  pub record Sends (t : List ℕ) (q : Sent) : Type 0 where
    pub whole : length t < limit → q ≡ (true, placed buffer t, length t)
    pub refused : limit ≤ length t → (q.0 ≡ false) × (q.2 ≡ limit)

  module _ (room : limit ≤ length buffer) (small : limit < 2 ^ 31) where
    refuse : (b t : List ℕ) → limit ≤ length t → Ensures (Sends t) (some (false, b, limit))
    refuse b t h =
        ensures _
          (record { whole = λ k. absurd (omega (arith, h, k)); refused = λ k. (refl, refl) })

    -- A part is appended, or what comes next does not matter.
    put_part-Sends :
        (src : List ℕ) (n : ℕ) (t rest : List ℕ) (next : List ℕ → ℕ → Option Sent)
        → length t ≤ limit
        → n < 2 ^ 31
        → (length (t ++ padded n src) < limit
            → Ensures
                (Sends ((t ++ padded n src) ++ rest))
                (next (placed buffer (t ++ padded n src)) (length (t ++ padded n src))))
        → Ensures
            (Sends ((t ++ padded n src) ++ rest))
            (put_part src n limit (placed buffer t) (length t) next)
    put_part-Sends src n t rest next before short k =
        let size : length (t ++ padded n src) ≡ length t + n =
          length-append t (padded n src) ∙ ap (λ i. length t + i) (length-padded n src) in
        let no_wrap : sum (length t) n ≡ length (t ++ padded n src) =
          omega (arith, size, before, short, small) in
        rw no_wrap (elim (Bool-cases (leb limit (length (t ++ padded n src)))) [
          | inl e ↦
              rw e
                (refuse _ _ (omega (arith, leb→le _ _ e, length-append (t ++ padded n src) rest)))
          | inr e ↦
              rw (e, copy_to_lem src n buffer t (omega (arith, leb→lt _ _ e, size, room)))
                (k (leb→lt _ _ e))
        ])

    finish-Sends :
        (t : List ℕ) → length t < limit → Ensures (Sends t) (finish (placed buffer t) (length t))
    finish-Sends t h =
        ensures _ (record { whole = λ k. refl; refused = λ k. absurd (omega (arith, h, k)) })

    store-placed :
        (t : List ℕ) (c : ℕ)
        → length t < length buffer
        → store (placed buffer t) (length t) c ≡ some (placed buffer (t ++ c ∷ []))
    store-placed t c h =
        store-append t (drop (length t) buffer) c (omega (arith, length-drop (length t) buffer, h))
        ∙ ap some (sym (placed_concat buffer t c))

    store_second :
        (t : List ℕ)
        → length t + 2 ≤ length buffer
        → store (placed buffer (t ++ 13 ∷ [])) (length t + 1) 10 ≡ some (placed buffer (t ++ crlf))
    store_second t h =
        let size : length (t ++ 13 ∷ []) ≡ length t + 1 = length-append t (13 ∷ []) in
        ap (λ i. store (placed buffer (t ++ 13 ∷ [])) i 10) (sym size)
        ∙ store-placed (t ++ 13 ∷ []) 10 (omega (arith, size, h))
        ∙ ap (λ l. some (placed buffer l)) (append_assoc t (13 ∷ []) (10 ∷ []))

    module _ (r : Response) (body_small : r.body_length < 2 ^ 31) where
      put_body-Sends :
          (t : List ℕ)
          → length t < limit
          → Ensures
              (Sends (t ++ padded r.body_length r.body))
              (put_body r limit (placed buffer t) (length t))
      unfolding put_body
      put_body-Sends t h = elim (Bool-cases (r.body_length == 0)) [
        | inl e ↦ rw (e, ==→eq _ _ e, append-nil t) (finish-Sends t h)
        | inr e ↦
            rw (e, ← append-nil (t ++ padded r.body_length r.body))
              (put_part-Sends r.body r.body_length t [] finish (omega (arith, h)) body_small
                (λ k. rw append-nil (finish-Sends (t ++ padded r.body_length r.body) k)))
      ]

      put_blank-Sends :
          (t : List ℕ)
          → length t < limit
          → Ensures
              (Sends (t ++ (crlf ++ padded r.body_length r.body)))
              (put_blank r limit (placed buffer t) (length t))
      unfolding put_blank
      put_blank-Sends t h =
          let body = padded r.body_length r.body in
          let size = length-append t crlf in
          rw
            (
              no_wrap t 1 (omega arith) h,
              no_wrap t 2 (omega arith) h,
              ← append_assoc t crlf body,
              ← size,
            )
            (elim (Bool-cases (leb limit (length (t ++ crlf)))) [
              | inl e ↦
                  rw e (refuse _ _ (omega (arith, leb→le _ _ e, length-append (t ++ crlf) body)))
              | inr e ↦
                  let fits : length t + 2 ≤ length buffer =
                    omega (arith, leb→lt _ _ e, size, room) in
                  rw (e, store-placed t 13 (omega (arith, fits)), store_second t fits)
                    (put_body-Sends (t ++ crlf) (leb→lt _ _ e))
            ])
        where
          no_wrap :
              (t : List ℕ) (n : ℕ) → n ≤ 2 → length t < limit → sum (length t) n ≡ length t + n
          no_wrap t n k h = omega (arith, k, h, small)

      put_content_length-Sends :
          (t : List ℕ)
          → length t ≤ limit
          → Ensures
              (Sends (t ++ (length_line r.body_length ++ (crlf ++ padded r.body_length r.body))))
              (put_content_length r limit (placed buffer t) (length t))
      unfolding put_content_length
      put_content_length-Sends t h =
          let line = length_line r.body_length in
          let is_line = length_line-IsLine r.body_length (omega (arith, body_small)) in
          let printed = print_line_lem length_format (word r.body_length ∷ []) line is_line in
          let same = padded-append line printed.0 is_line.text in
          rw
            (
              printed.1,
              cut_off_line (length line) is_line.short,
              ← append_assoc t line (crlf ++ padded r.body_length r.body),
            )
            (subst
              (λ piece. Ensures (Sends ((t ++ piece) ++ (crlf ++ padded r.body_length r.body))) (
                put_part (line ++ printed.0) (length line) limit (placed buffer t) (length t)
                  (put_blank r limit)))
              same
              (put_part-Sends (line ++ printed.0) (length line) t
                (crlf ++ padded r.body_length r.body) (put_blank r limit) h
                (omega (arith, is_line.short)) (put_blank-Sends _)))

      put_headers-Sends :
          (t : List ℕ)
          → length t ≤ limit
          → strlen r.headers < 2 ^ 31
          → Ensures
              (Sends (
                t
                ++ (padded (strlen r.headers) r.headers
                    ++ (length_line r.body_length ++ (crlf ++ padded r.body_length r.body)))))
              (put_headers r limit (placed buffer t) (length t))
      unfolding put_headers
      put_headers-Sends t h k =
          let rest = length_line r.body_length ++ (crlf ++ padded r.body_length r.body) in
          elim (Bool-cases (strlen r.headers == 0)) [
            | inl e ↦ rw (e, ==→eq _ _ e) (put_content_length-Sends t h)
            | inr e ↦
                rw (e, ← append_assoc t (padded (strlen r.headers) r.headers) rest)
                  (put_part-Sends r.headers (strlen r.headers) t rest (put_content_length r limit) h
                    k (λ l. put_content_length-Sends _ (omega (arith, l))))
          ]

-- `http_generate_response` stores inside the buffer alone. It puts the status line, the headers, a
-- `Content-Length` line, an empty line and the body at the front of the buffer and sets `*length`
-- to their length when that is less than the given length, and otherwise returns -1 and leaves
-- `*length` alone. The given length is at least 64, less than 2 ^ 31 and at most the buffer's size,
-- and the headers and the stated length of the body are shorter than 2 ^ 31.
pub http_generate_response-Sends :
    (r : Response) (buffer : List ℕ) (limit : ℕ)
    → r.body_length < 2 ^ 31
    → strlen r.headers < 2 ^ 31
    → limit ≤ length buffer
    → 64 ≤ limit
    → limit < 2 ^ 31
    → Ensures (Sends buffer limit (response_text r)) (http_generate_response r buffer limit)
unfolding http_generate_response
http_generate_response-Sends r buffer limit body headers room enough small =
    let status = status_format r.status_code in
    let is_line = status_format-IsLine r.status_code in
    let printed = print_line_lem status [] status is_line in
    rw
      (
        printed.1,
        cut_off_line (length status) is_line.short,
        copy_to_lem (status ++ printed.0) (length status) buffer []
            (omega (arith, is_line.short, enough, room)),
        padded-append status printed.0 is_line.text,
        ← padded-strlen r.headers,
      )
      (put_headers-Sends buffer limit room small r body status
        (omega (arith, is_line.short, enough)) headers)
